-- ===== src/Pm.antt =====
-- src/pm.c: the process manager behind its functions. The key-value space of PMI is a parameter;
-- a text is the list of its bytes, and so are the numbers that sprintf and sscanf print and read.
pub mod Decimal
use lc.Base.{
  ℕ, zero, suc, ◌+◌, ◌-◌, ◌*◌, ◌/◌, ◌%◌, ◌^◌, ◌≡◌, ◌≢◌, List, [], ◌∷◌, Option, none, some, Bool,
  true, false, ◌&&◌, ◌==◌, ltb, leb, if◌then◌else◌,
}

-- The decimal digits of a number of at most 20 digits, before a text.
unfoldable pub digits : ℕ → ℕ → List ℕ → List ℕ
digits zero n out = out
digits (suc f) n out =
    let rest = digits f (n / 10) ((48 + n % 10) ∷ out) in
    if n / 10 == 0 then (48 + n % 10) ∷ out else rest

-- `%llu`, and `%d` on the 32 bits of an int.
unfoldable pub print_llu : ℕ → List ℕ → List ℕ
print_llu n out = digits 20 n out

unfoldable pub print_d : ℕ → List ℕ → List ℕ
print_d n out = if ltb n (2 ^ 31) then digits 20 n out else b'-' ∷ digits 20 (2 ^ 32 - n) out

abbrev pub is_digit : ℕ → Bool
is_digit c = leb 48 c && leb c 57

abbrev pub starts_digit : List ℕ → Bool
starts_digit [] = false
starts_digit (c ∷ cs) = is_digit c

-- The longest run of digits.
unfoldable pub scan_digits : ℕ → List ℕ → ℕ × List ℕ
scan_digits a [] = (a, [])
scan_digits a (c ∷ cs) =
    let more = scan_digits (a * 10 + (c - 48)) cs in if is_digit c then more else (a, c ∷ cs)

-- sscanf's `%llu` and `%d` on a text without white space: the number and the rest.
unfoldable pub scan_llu : List ℕ → Option (ℕ × List ℕ)
scan_llu cs = if starts_digit cs then some (scan_digits 0 cs) else none

abbrev pub negated : ℕ × List ℕ → ℕ × List ℕ
negated (n, cs) = ((2 ^ 32 - n) % 2 ^ 32, cs)

unfoldable pub scan_d : List ℕ → Option (ℕ × List ℕ)
scan_d [] = none
scan_d (c ∷ cs) =
    if c == b'-'
    then (if starts_digit cs then some (negated (scan_digits 0 cs)) else none)
    else (if is_digit c then some (scan_digits 0 (c ∷ cs)) else none)

-- The key of a process and a number, `"_LC_KEY_%d_%d"`.
unfoldable pub pm_key : ℕ → ℕ → List ℕ
pm_key rank gid =
    b'_' ∷ b'L' ∷ b'C' ∷ b'_' ∷ b'K' ∷ b'E' ∷ b'Y' ∷ b'_' ∷ print_d rank (b'_' ∷ print_d gid [])

-- PMI's key-value space: a key is put once, and then read as it was put.
pub record Kvs : Type 1 where
  pub Space : Type 0
  pub put : Space → List ℕ → List ℕ → Space
  pub get : Space → List ℕ → Option (List ℕ)
  pub get-put_self : (s : Space) (k v : List ℕ) → get s k ≡ none → get (put s k v) k ≡ some v
  pub get-put_ne : (s : Space) (k j v : List ℕ) → k ≢ j → get (put s k v) j ≡ get s j

module _ (kvs : Kvs) where
  open kvs use {Space, put, get}

  unfoldable pub lc_pm_publish : Space → ℕ → ℕ → List ℕ → Space
  lc_pm_publish s rank gid value = put s (pm_key rank gid) value

  unfoldable pub lc_pm_getname : Space → ℕ → ℕ → Option (List ℕ)
  lc_pm_getname s rank gid = get s (pm_key rank gid)
