-- ===== src/SlashPath.antt =====
-- The functions of Go's package `path` that the program calls.
pub mod Names
pub mod Clean
pub mod Relative
use ocifuse.Prelude.{
  ℕ, Bool, true, false, ◌||◌, List, [], ◌∷◌, ◌++◌, reverse, Bytes, codes, ◌==◌, nat_eq, bytes_eq,
  if◌then◌else◌,
}
use ocifuse.Strings.{has_prefix, split, join, trim_left}

-- '/'
abbrev pub slash : ℕ
slash = b'/'

abbrev pub root : Bytes
root = codes "/"

abbrev pub is_empty : Bytes → Bool
is_empty [] = true
is_empty (_ ∷ _) = false

-- "..": the last element goes, but a ".." of a path that is not rooted stays.
unfoldable pub go_up : Bool → List Bytes → List Bytes
go_up true [] = []
go_up false [] = codes ".." ∷ []
go_up true (top ∷ below) = below
go_up false (top ∷ below) = if top == codes ".." then codes ".." ∷ top ∷ below else below

-- The elements that are left, the last one first, after one more element of the path.
unfoldable pub clean_step : Bool → List Bytes → Bytes → List Bytes
unfolding go_up
clean_step rooted kept seg =
    if is_empty seg || seg == codes "."
    then kept
    else if seg == codes ".."
    then go_up rooted kept
    else seg ∷ kept

unfoldable pub clean_loop : Bool → List Bytes → List Bytes → List Bytes
unfolding clean_step
clean_loop rooted kept [] = kept
clean_loop rooted kept (seg ∷ segs) = clean_loop rooted (clean_step rooted kept seg) segs

-- path.Clean(p)
unfoldable pub clean : Bytes → Bytes
unfolding clean_loop has_prefix split join
clean p =
    let rooted = has_prefix p root in
    let body = join slash (reverse (clean_loop rooted [] (split slash p))) in
    if rooted then slash ∷ body else if is_empty body then codes "." else body

-- path.Split(p): what ends with the last slash, and what follows it.
unfoldable pub split_last : Bytes → Bytes × Bytes
split_last [] = ([], [])
split_last (x ∷ p) =
    let (d, f) = split_last p in
    if is_empty d then (if x == slash then (x ∷ [], f) else ([], x ∷ f)) else (x ∷ d, f)

-- path.Dir(p)
unfoldable pub dir : Bytes → Bytes
unfolding split_last clean
dir p = clean (split_last p).0

-- path.Base(p)
unfoldable pub base : Bytes → Bytes
unfolding split_last trim_left
base p =
    if is_empty p
    then codes "."
    else let stripped = reverse (trim_left slash (reverse p)) in
      let name = (split_last stripped).1 in if is_empty name then root else name

skip_empty : List Bytes → List Bytes
skip_empty [] = []
skip_empty (e ∷ es) = if is_empty e then skip_empty es else e ∷ es

-- path.Join(elems...): elements are joined by slashes once one is not empty.
unfoldable pub path_join : List Bytes → Bytes
unfolding skip_empty
path_join elems =
    let rest = skip_empty elems in elim rest [ [] ↦ [] | e ∷ es ↦ clean (join slash (e ∷ es)) ]
