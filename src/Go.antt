-- ===== src/Go.antt =====
-- Functions of Go's standard library on byte strings, as the program uses them.
use hmq.Prelude.{
  ℕ, zero, suc, ◌-◌, Bool, true, false, ◌&&◌, ◌||◌, Option, none, some, List, [], ◌∷◌, ◌++◌, Bytes,
  ◌==◌, nat_eq, bytes_eq, if◌then◌else◌, length, is_empty,
}

-- strings.Split(s, sep) for a separator of one byte; `before` is the piece read so far.
unfoldable pub split_from : ℕ → Bytes → Bytes → List Bytes
split_from sep before [] = before ∷ []
split_from sep before (c ∷ s) =
    let cut = before ∷ split_from sep [] s in
    let onward = split_from sep (before ++ c ∷ []) s in if c == sep then cut else onward

abbrev pub split : ℕ → Bytes → List Bytes
split sep s = split_from sep [] s

-- strings.HasPrefix
unfoldable pub has_prefix : Bytes → Bytes → Bool
has_prefix s [] = true
has_prefix [] (p ∷ ps) = false
has_prefix (c ∷ s) (p ∷ ps) = c == p && has_prefix s ps

-- strings.Replace(s, old, new, -1) for an `old` that is not empty; `skip` bytes of the last
-- occurrence found are still to be passed over.
unfoldable pub replace_skip : ℕ → Bytes → Bytes → Bytes → Bytes
unfolding has_prefix
replace_skip skip old new [] = []
replace_skip (suc skip) old new (c ∷ s) = replace_skip skip old new s
replace_skip zero old new (c ∷ s) =
    let found = new ++ replace_skip (length old - 1) old new s in
    let onward = c ∷ replace_skip zero old new s in if has_prefix (c ∷ s) old then found else onward

abbrev pub replace : Bytes → Bytes → Bytes → Bytes
replace s old new = replace_skip zero old new s

-- bytes.IndexByte, with -1 as `none`
unfoldable pub index_byte : Bytes → ℕ → Option ℕ
index_byte [] b = none
index_byte (c ∷ s) b =
    if c == b then some 0 else elim (index_byte s b) [ none ↦ none | some i ↦ some (suc i) ]

-- strings.Contains for a text of one byte
unfoldable pub contains_byte : Bytes → ℕ → Bool
contains_byte [] b = false
contains_byte (c ∷ s) b = c == b || contains_byte s b

-- The white space of ASCII.
abbrev pub is_space : ℕ → Bool
is_space c = c == 0x20 || c == 0x09 || c == 0x0a || c == 0x0b || c == 0x0c || c == 0x0d

-- strings.Fields on ASCII text; `before` is the field read so far.
unfoldable pub fields_from : Bytes → Bytes → List Bytes
fields_from before [] = if is_empty before then [] else before ∷ []
fields_from before (c ∷ s) =
    let cut = (let rest = fields_from [] s in if is_empty before then rest else before ∷ rest) in
    let onward = fields_from (before ++ c ∷ []) s in if is_space c then cut else onward

abbrev pub fields : Bytes → List Bytes
fields s = fields_from [] s

unfoldable pub trim_left : Bytes → Bytes
trim_left [] = []
trim_left (c ∷ s) = if is_space c then trim_left s else c ∷ s

unfoldable pub trim_right : Bytes → Bytes
trim_right [] = []
trim_right (c ∷ s) = let rest = trim_right s in if is_space c && is_empty rest then [] else c ∷ rest

-- strings.TrimSpace on ASCII text
unfoldable pub trim_space : Bytes → Bytes
unfolding trim_left trim_right
trim_space s = trim_right (trim_left s)
