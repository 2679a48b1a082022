-- ===== src/Concern/Registry.antt =====
-- lsp/concern/registry.go: the sites that are registered, with their types. Of a Concern, what the
-- registry reads is a record; the global center is passed on from call to call. What a registration
-- or a parse does when Go would panic is a value.
pub mod Laws
pub mod Parse
use ddbot_nexus.Prelude.{
  if◌then◌else◌, filter, is_empty, Text, ◌==ₜ◌, elem, Option, none, some, List, [], ◌∷◌, ◌++◌, map,
}
use ddbot_nexus.Groupux.Assoc.{find, put}
use ddbot_nexus.ConcernType.{ConcernType, empty_type, is_trivial, split, contain_all, add}
use ddbot_nexus.Buntdb.Interface.{
  Reply, is_ok, site_not_supported, type_not_supported, index_out_of_range, ok, err,
}
use ddbot_nexus.Utils.{quote, trim_byte, prefix_match}

pub record Concern : Type 0 where
  pub site : Text
  pub types : List ConcernType

pub record Center : Type 0 where
  pub concern_list : List Concern
  pub concern_map : List (Text × Concern)
  pub concern_type_map : List (Text × ConcernType)
  pub concern_sites : List Text

unfoldable pub new_concern_center : Center
new_concern_center = record {
  concern_list = [];
  concern_map = [];
  concern_type_map = [];
  concern_sites = [];
}

-- All types of a concern as one.
unfoldable pub all_types : Concern → ConcernType
all_types c = add empty_type c.types

-- The map that a loop over the concerns fills, from the site of each to a value.
unfoldable pub put_all {ℓ} :
    {V : Type ℓ} → (Concern → V) → List Concern → List (Text × V) → List (Text × V)
put_all value [] m = m
put_all value (c ∷ cs) m = put_all value cs (put ◌==ₜ◌ c.site (value c) m)

abbrev pub site_of : Concern → Text
site_of c = c.site

abbrev pub sites_of : List Concern → List Text
sites_of cs = map site_of cs

unfoldable pub fresh_cache : Center → Center
unfolding put_all
fresh_cache g = record g {
  concern_map = put_all (λ c. c) g.concern_list [];
  concern_type_map = put_all all_types g.concern_list [];
  concern_sites = sites_of g.concern_list;
}

unfoldable pub or_not_supported {ℓ} : {A : Type ℓ} → Option A → Reply A
or_not_supported none = err site_not_supported
or_not_supported (some a) = ok a

unfoldable pub get_concern_by_site : Center → Text → Reply Concern
unfolding or_not_supported
get_concern_by_site g site = or_not_supported (find ◌==ₜ◌ site g.concern_map)

unfoldable pub type_checked : ConcernType → Option ConcernType → Reply (Unit {0})
type_checked ctype none = err site_not_supported
type_checked ctype (some combined) =
    if contain_all combined ctype then ok tt else err type_not_supported

unfoldable pub check_site_and_type : Center → Text → ConcernType → Reply (Unit {0})
unfolding type_checked
check_site_and_type g site ctype = type_checked ctype (find ◌==ₜ◌ site g.concern_type_map)

abbrev pub then_reply {ℓ κ} : {A : Type ℓ} {B : Type κ} → Reply A → (A → Reply B) → Reply B
then_reply (ok a) f = f a
then_reply (err e) f = err e

unfoldable pub get_concern_by_site_and_type : Center → Text → ConcernType → Reply Concern
get_concern_by_site_and_type g site ctype =
    then_reply (check_site_and_type g site ctype) (λ _. get_concern_by_site g site)

abbrev pub type_or_zero : Option ConcernType → ConcernType
type_or_zero none = empty_type
type_or_zero (some t) = t

unfoldable pub get_concern_types : Center → Text → Reply ConcernType
get_concern_types g site =
    then_reply (get_concern_by_site g site)
      λ _. ok (type_or_zero (find ◌==ₜ◌ site g.concern_type_map))

-- Why Register panics.
pub data Panic : Type 0 where
  nil_concern : Panic
  already_registered : Text → Panic
  not_trivial : Text → ConcernType → Panic
  no_types : Text → Panic

pub data Registration : Type 0 where
  registered : Center → Registration
  panicked : Panic → Registration

unfoldable pub find_not_trivial : List ConcernType → Option ConcernType
find_not_trivial [] = none
find_not_trivial (t ∷ ts) = let rest = find_not_trivial ts in if is_trivial t then rest else some t

unfoldable pub register_checked : Option ConcernType → Concern → Center → Registration
unfolding fresh_cache
register_checked (some t) c g = panicked (not_trivial c.site t)
register_checked none c g =
    if is_empty (all_types c)
    then panicked (no_types c.site)
    else registered (fresh_cache (record g { concern_list = g.concern_list ++ c ∷ [] }))

unfoldable pub register : Option Concern → Center → Registration
unfolding find_not_trivial register_checked
register none g = panicked nil_concern
register (some c) g =
    if elem c.site (sites_of g.concern_list)
    then panicked (already_registered c.site)
    else register_checked (find_not_trivial c.types) c g

-- StartAll keeps the concerns whose Start answers with no error.
unfoldable pub start_all : (Concern → Reply (Unit {0})) → Center → Center
unfolding fresh_cache
start_all start g =
    fresh_cache (record g { concern_list = filter (λ c. is_ok (start c)) g.concern_list })

unfoldable pub parse_raw_site : Center → Text → Reply Text
unfolding or_not_supported
parse_raw_site g raw_site =
    or_not_supported (prefix_match g.concern_sites (trim_byte quote raw_site))

-- `ctypes.Split()[0]`
unfoldable pub first_type : List ConcernType → Reply ConcernType
first_type [] = err index_out_of_range
first_type (t ∷ ts) = ok t

abbrev pub or_type_not_supported : Option ConcernType → Reply ConcernType
or_type_not_supported none = err type_not_supported
or_type_not_supported (some t) = ok t

abbrev pub types_or_zero : Reply ConcernType → ConcernType
types_or_zero (ok t) = t
types_or_zero (err e) = empty_type

unfoldable pub choose_type : List ConcernType → Text → Reply ConcernType
unfolding first_type
choose_type ts raw_type =
    if is_empty raw_type then first_type ts else or_type_not_supported (prefix_match ts raw_type)

unfoldable pub parse_raw_site_and_type : Center → Text → Text → Reply (Text × ConcernType)
unfolding parse_raw_site choose_type
parse_raw_site_and_type g raw_site raw_type =
    then_reply (parse_raw_site g (trim_byte quote raw_site)) λ site.
      then_reply
        (choose_type (split (types_or_zero (get_concern_types g site))) (trim_byte quote raw_type))
        λ t. ok (site, t)

abbrev pub concern_or_nil : Reply Concern → Option Concern
concern_or_nil (ok c) = some c
concern_or_nil (err e) = none

-- An error of the last lookup is dropped, and the concern is nil then.
unfoldable pub get_concern_by_parse_site_and_type :
    Center → Text → Text → Reply (Option Concern × Text × ConcernType)
unfolding parse_raw_site_and_type
get_concern_by_parse_site_and_type g raw_site raw_type =
    then_reply (parse_raw_site_and_type g raw_site raw_type)
      λ p. ok (concern_or_nil (get_concern_by_site_and_type g p.0 p.1), p.0, p.1)

unfoldable pub get_concern_by_parse_site : Center → Text → Reply Concern
unfolding parse_raw_site
get_concern_by_parse_site g raw_site =
    then_reply (parse_raw_site g raw_site) (λ site. get_concern_by_site g site)
