-- ===== src/Slug.antt =====
-- `slugify` of apps/api/src/orgs/orgs.service.ts, over code units.
use justmail.Prelude.{
  ℕ, Bool, true, false, ◌&&◌, ◌||◌, [], ◌∷◌, Text, ◌==◌, leb, if◌then◌else◌, take,
}

abbrev pub dash : ℕ
dash = b'-'

-- `[a-z0-9]`
abbrev pub is_alnum : ℕ → Bool
is_alnum c = leb b'a' c && leb c b'z' || leb b'0' c && leb c b'9'

-- `.replace(/[^a-z0-9]+/g, "-")`; the flag says that the run before was replaced already.
pub dash_runs : Bool → Text → Text
dash_runs inside [] = []
dash_runs inside (c ∷ s) =
    let kept = c ∷ dash_runs false s in
    let run = dash_runs true s in if is_alnum c then kept else if inside then run else dash ∷ run

-- `.replace(/^-+/, "")`
pub trim_start : Text → Text
trim_start [] = []
trim_start (c ∷ s) = if c == dash then trim_start s else c ∷ s

-- `c` before an already trimmed text.
abbrev keep_before : ℕ → Text → Text
keep_before c [] = if c == dash then [] else c ∷ []
keep_before c (d ∷ s) = c ∷ d ∷ s

-- `.replace(/-+$/, "")`
pub trim_end : Text → Text
trim_end [] = []
trim_end (c ∷ s) = keep_before c (trim_end s)

-- `base || fallback`
abbrev pub or_else : Text → Text → Text
or_else [] fallback = fallback
or_else (c ∷ s) fallback = c ∷ s

-- `fold` is `.toLowerCase().normalize("NFKD")`, and `fallback` is the random `org-…`.
unfoldable pub slugify : (Text → Text) → Text → Text → Text
unfolding dash_runs trim_start trim_end
slugify fold fallback name =
    or_else (take 48 (trim_end (trim_start (dash_runs false (fold name))))) fallback
