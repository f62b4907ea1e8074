-- ===== src/Strings.antt =====
-- The functions of Go's packages `strings` and `bytes` that the program calls, on lists of bytes.
pub mod Laws
use ocifuse.Prelude.{
  ℕ, zero, suc, ◌+◌, ◌-◌, Bool, true, false, ◌&&◌, ◌||◌, not, Option, none, some, List, [], ◌∷◌,
  ◌++◌, reverse, Bytes, codes, ◌==◌, nat_eq, bytes_eq, leb, any, drop, length, if◌then◌else◌,
}

-- strings.HasPrefix(s, p)
unfoldable pub has_prefix : Bytes → Bytes → Bool
has_prefix s [] = true
has_prefix [] (y ∷ p) = false
has_prefix (x ∷ s) (y ∷ p) = x == y && has_prefix s p

-- strings.TrimPrefix(s, p)
unfoldable pub trim_prefix : Bytes → Bytes → Bytes
unfolding has_prefix
trim_prefix s p = if has_prefix s p then drop (length p) s else s

-- strings.TrimLeft(s, c) for a single byte c
unfoldable pub trim_left : ℕ → Bytes → Bytes
trim_left c [] = []
trim_left c (x ∷ s) = let rest = trim_left c s in if x == c then rest else x ∷ s

-- strings.Trim(s, c) for a single byte c
unfoldable pub trim : ℕ → Bytes → Bytes
unfolding trim_left
trim c s = reverse (trim_left c (reverse (trim_left c s)))

-- x in front of the first piece
unfoldable pub extend : ℕ → List Bytes → List Bytes
extend x [] = (x ∷ []) ∷ []
extend x (s ∷ ss) = (x ∷ s) ∷ ss

-- strings.Split(s, c) for a single byte c
unfoldable pub split : ℕ → Bytes → List Bytes
unfolding extend
split c [] = [] ∷ []
split c (x ∷ s) = let rest = split c s in if x == c then [] ∷ rest else extend x rest

-- strings.Join(ss, c) for a single byte c
unfoldable pub join : ℕ → List Bytes → Bytes
join c [] = []
join c (s ∷ []) = s
join c (s ∷ t ∷ ss) = s ++ c ∷ join c (t ∷ ss)

-- strings.IndexByte(s, c); `none` stands for -1
unfoldable pub index_byte : Bytes → ℕ → Option ℕ
index_byte [] c = none
index_byte (x ∷ s) c =
    if x == c then some 0 else elim (index_byte s c) [ none ↦ none | some i ↦ some (suc i) ]

-- strings.LastIndex(s, c) for a single byte c; `none` stands for -1
unfoldable pub last_index : Bytes → ℕ → Option ℕ
last_index [] c = none
last_index (x ∷ s) c = elim (last_index s c) [
  | some i ↦ some (suc i)
  | none ↦ if x == c then some 0 else none
]

-- bytes.Index(s, sub); `none` stands for -1
unfoldable pub index : Bytes → Bytes → Option ℕ
unfolding has_prefix
index [] sub = if has_prefix [] sub then some 0 else none
index (x ∷ s) sub =
    if has_prefix (x ∷ s) sub
    then some 0
    else elim (index s sub) [ none ↦ none | some i ↦ some (suc i) ]

-- strings.Contains(s, sub)
unfoldable pub contains : Bytes → Bytes → Bool
unfolding index
contains s sub = elim (index s sub) [ none ↦ false | some i ↦ true ]

-- strings.ContainsAny(s, chars), for ASCII chars
unfoldable pub contains_any : Bytes → Bytes → Bool
contains_any s chars = any (λ c. any (λ d. d == c) chars) s

-- strings.ReplaceAll(s, from, to) for single bytes
unfoldable pub replace_all : ℕ → ℕ → Bytes → Bytes
replace_all from to [] = []
replace_all from to (x ∷ s) = (if x == from then to else x) ∷ replace_all from to s
