-- ===== src/Tests/Sites.antt =====
-- The registry of sites (lsp/concern/registry.go) with two sites, and prefixes of their names.
use ddbot_nexus.Prelude.{
  bytes, ◌==ₜ◌, text_leb, has_prefix, join, split_at, elem, ◌≡◌, refl, ◌≢◌, true, some, [], ◌∷◌,
}
use ddbot_nexus.Concern.Registry.{
  Concern, Center, new_concern_center, all_types, get_concern_by_site_and_type, register,
  parse_raw_site_and_type, get_concern_by_parse_site_and_type, already_registered, registered,
  panicked, get_concern_by_site, get_concern_types,
}
use ddbot_nexus.Concern.Registry.Laws.{
  IsRegistry, concern_at, Reach, Reach-IsRegistry, answer_at,
  get_concern_by_site_and_type-concern_at, new, register_one,
}
use ddbot_nexus.Concern.Registry.Parse.{
  get_concern_by_parse_site_and_type-concern_at, parse_raw_site_and_type_total,
}
use ddbot_nexus.ConcernType.{
  split, ConcernType, is_trivial, sort, split_parts, combine, insert_all, insert_types, add,
}
use ddbot_nexus.Buntdb.Interface.{index_out_of_range, ok, err}
use ddbot_nexus.Utils.{trim_byte, prefix_match}

abbrev bilibili : Concern
bilibili = record { site = bytes "bilibili"; types = bytes "news" ∷ bytes "live" ∷ [] }

abbrev douyu : Concern
douyu = record { site = bytes "douyu"; types = bytes "live" ∷ [] }

abbrev with_bilibili : Center
with_bilibili = record {
  concern_list = bilibili ∷ [];
  concern_map = (bytes "bilibili", bilibili) ∷ [];
  concern_type_map = (bytes "bilibili", bytes "live/news") ∷ [];
  concern_sites = bytes "bilibili" ∷ [];
}

abbrev sites : Center
sites = record {
  concern_list = bilibili ∷ douyu ∷ [];
  concern_map = (bytes "bilibili", bilibili) ∷ (bytes "douyu", douyu) ∷ [];
  concern_type_map = (bytes "bilibili", bytes "live/news") ∷ (bytes "douyu", bytes "live") ∷ [];
  concern_sites = bytes "bilibili" ∷ bytes "douyu" ∷ [];
}

first_registered : register (some bilibili) new_concern_center ≡ registered with_bilibili
unfolding ddbot_nexus.Groupux.Assoc.put register elem new_concern_center is_trivial all_types add
    combine insert_types insert_all split split_parts sort split_at ◌==ₜ◌ join text_leb
first_registered = refl

second_registered : register (some douyu) with_bilibili ≡ registered sites
unfolding register elem ddbot_nexus.Prelude.◌==ₜ◌ ddbot_nexus.ConcernType.is_trivial all_types
    ddbot_nexus.ConcernType.add ddbot_nexus.ConcernType.combine ddbot_nexus.ConcernType.insert_types
    ddbot_nexus.ConcernType.insert_all split ddbot_nexus.ConcernType.split_parts
    ddbot_nexus.ConcernType.sort ddbot_nexus.Prelude.split_at ddbot_nexus.Prelude.join
    ddbot_nexus.Groupux.Assoc.put ddbot_nexus.Prelude.text_leb
second_registered = refl

twice : register (some bilibili) sites ≡ panicked (already_registered (bytes "bilibili"))
unfolding register elem ddbot_nexus.Prelude.◌==ₜ◌
twice = refl

sites-Reach : Reach sites
sites-Reach =
    register_one (some douyu) (register_one (some bilibili) new first_registered) second_registered

Reach-IsRegistry_example : IsRegistry sites
Reach-IsRegistry_example = Reach-IsRegistry sites-Reach

get_concern_by_site_and_type-concern_at_example :
    get_concern_by_site_and_type sites (bytes "douyu") (bytes "news")
    ≡ answer_at (bytes "news") (concern_at (bytes "douyu") sites.concern_list)
get_concern_by_site_and_type-concern_at_example =
    get_concern_by_site_and_type-concern_at sites (bytes "douyu") (bytes "news")
      (Reach-IsRegistry sites-Reach)

-- The type that is taken by default is the first in order, not the first that was registered.
default_type : parse_raw_site_and_type sites (bytes "bi") [] ≡ ok (bytes "bilibili", bytes "live")
unfolding parse_raw_site_and_type ddbot_nexus.Utils.prefix_match ddbot_nexus.Prelude.has_prefix
    ddbot_nexus.Utils.trim_byte split ddbot_nexus.Concern.Registry.get_concern_types
    ddbot_nexus.Concern.Registry.get_concern_by_site ddbot_nexus.Groupux.Assoc.find
    ddbot_nexus.Prelude.◌==ₜ◌ ddbot_nexus.ConcernType.split_parts ddbot_nexus.ConcernType.sort
    ddbot_nexus.Prelude.split_at ddbot_nexus.Prelude.text_leb
default_type = refl

get_concern_by_parse_site_and_type-concern_at_example :
    (c : Concern) × (concern_at (bytes "bilibili") sites.concern_list ≡ some c)
    × (elem (bytes "live") (split (all_types c)) ≡ true)
    × (get_concern_by_parse_site_and_type sites (bytes "bi") []
        ≡ ok (some c, bytes "bilibili", bytes "live"))
get_concern_by_parse_site_and_type-concern_at_example =
    get_concern_by_parse_site_and_type-concern_at (Reach-IsRegistry sites-Reach) (bytes "bi") []
      (bytes "bilibili") (bytes "live") default_type

parse_raw_site_and_type_total_test :
    parse_raw_site_and_type sites (bytes "dou") (bytes "news") ≢ err index_out_of_range
parse_raw_site_and_type_total_test =
    parse_raw_site_and_type_total (Reach-IsRegistry sites-Reach) (bytes "dou") (bytes "news")
