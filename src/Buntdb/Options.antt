-- ===== src/Buntdb/Options.antt =====
-- lsp/buntdb/option.go, and what shortcut.go does with a value or an error on its own: the options
-- of a helper, expiry, int64 values, and an absent key that is ignored.
use ddbot_nexus.Prelude.{
  ltb, if◌then◌else◌, Text, ℤ, pos, negsuc, parse_int, ℕ, zero, suc, ◌+◌, ◌-◌, ◌%◌, ◌^◌, Bool, true,
  false, ◌&&◌, Option, none, some, [], ◌∷◌,
}
use ddbot_nexus.Buntdb.Interface.{Reply, is_not_found, invalid_number, ok, err}

pub record Options : Type 0 where
  pub ignore_expire : Bool
  pub no_over_write : Bool
  pub expire : ℤ
  pub keep_last_expire : Bool
  pub ignore_not_found : Bool

-- getOption()
abbrev pub no_option : Options
no_option = record {
  ignore_expire = false;
  no_over_write = false;
  expire = pos 0;
  keep_last_expire = false;
  ignore_not_found = false;
}

abbrev pub set_expire_opt : ℤ → Options → Options
set_expire_opt d o = record o { expire = d }

abbrev pub set_keep_last_expire_opt : Options → Options
set_keep_last_expire_opt o = record o { keep_last_expire = true }

abbrev pub set_no_over_write_opt : Options → Options
set_no_over_write_opt o = record o { no_over_write = true }

abbrev pub get_ignore_expire_opt : Options → Options
get_ignore_expire_opt o = record o { ignore_expire = true }

abbrev pub ignore_not_found_opt : Options → Options
ignore_not_found_opt o = record o { ignore_not_found = true }

-- ExpireOption: a duration that is not positive sets none.
unfoldable pub expire_option : ℤ → Option ℕ
expire_option (pos zero) = none
expire_option (pos (suc n)) = some (suc n)
expire_option (negsuc n) = none

-- `setPrevious` at a pointer to an int64 that holds `old`.
unfoldable pub set_previous_int64 : ℤ → Text → ℤ
set_previous_int64 old [] = old
set_previous_int64 old (c ∷ s) = elim (parse_int (c ∷ s)) [ none ↦ old | some i ↦ i ]

-- `setPrevious` at a pointer to a text that holds `old`.
unfoldable pub set_previous_string : Text → Text → Text
set_previous_string old [] = old
set_previous_string old (c ∷ s) = c ∷ s

unfoldable pub int64_wrapper : Reply Text → Reply ℤ
int64_wrapper (err e) = err e
int64_wrapper (ok []) = ok (pos 0)
int64_wrapper (ok (c ∷ s)) = elim (parse_int (c ∷ s)) [ none ↦ err invalid_number | some i ↦ ok i ]

-- `+` on int64
abbrev pub int64_residue : ℤ → ℕ
int64_residue (pos n) = n % 2 ^ 64
int64_residue (negsuc n) = (2 ^ 64 - 1 - n % 2 ^ 64)

abbrev pub int64_of_residue : ℕ → ℤ
int64_of_residue r = if ltb r (2 ^ 63) then pos r else negsuc (2 ^ 64 - 1 - r)

unfoldable pub add_int64 : ℤ → ℤ → ℤ
add_int64 a b = int64_of_residue ((int64_residue a + int64_residue b) % 2 ^ 64)

unfoldable pub forgive_not_found : Bool → Reply Text → Reply Text
forgive_not_found ignore (ok v) = ok v
forgive_not_found ignore (err e) = if ignore && is_not_found e then ok [] else err e
