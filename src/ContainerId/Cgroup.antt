-- ===== src/ContainerId/Cgroup.antt =====
-- What `parseCgroup` finds.
use burmilla_os.Base.{
  ◌∙◌, All-append, ℕ, ◌≡◌, ◌≢◌, ℕ, codes, arith, Lacks, ◌≢◌, refl, ap, true, ◌⊎◌, inl, inr, Option,
  none, some, List, [], ◌∷◌, ◌++◌, Text, All, Bool-cases, arith, Lacks,
}
use burmilla_os.Strings.{trim_prefix, trim_suffix, split, split_n}
use burmilla_os.Strings.Laws.{
  split-append, split_whole, split_n-append, trim_suffix_none, trim_suffix-append,
}
use burmilla_os.ContainerId.{
  is_hex, all_hex, bare, Scanned, is_container_id, bare, id_among, path_id, cgroup_line,
  cgroup_lines, parse_cgroup,
}

id_among_valid :
    (parts : List Text) {id : Text} → id_among parts ≡ some id → is_container_id id ≡ true
unfolding id_among
id_among_valid [] h = cc
id_among_valid (part ∷ parts) {id} h = elim (Bool-cases (is_container_id (bare part))) [
  | inl e ↦ ground (arith, e)
  | inr e ↦ id_among_valid parts (ground (arith, e))
]

-- A line names nothing but a container ID.
pub cgroup_line_valid :
    (line : Text) {id : Text} → cgroup_line line ≡ some id → is_container_id id ≡ true
unfolding cgroup_line
cgroup_line_valid line {id} h = go (split_n b':' line 3) h
  where
    go : (parts : List Text) → path_id parts ≡ some id → is_container_id id ≡ true
    go (a ∷ b ∷ path ∷ []) e = id_among_valid (split b'/' path) e
    go (a ∷ b ∷ path ∷ c ∷ rest) e = cc
    go (a ∷ b ∷ []) e = cc
    go (a ∷ []) e = cc
    go [] e = cc

-- The lines up to the first one that names an ID.
abbrev pub FirstNamed : List Text → Text → Type 0
FirstNamed lines id =
    (before : List Text) × (line : Text) × (after : List Text) × (lines ≡ before ++ line ∷ after)
    × All (λ l. cgroup_line l ≡ none) before
    × (cgroup_line line ≡ some id)

cgroup_lines_cases :
    (lines : List Text) (failure : Option Text)
    → (All (λ l. cgroup_line l ≡ none) lines × (cgroup_lines lines failure ≡ ([], failure)))
      ⊎ ((id : Text) × FirstNamed lines id × (cgroup_lines lines failure ≡ (id, none)))
unfolding cgroup_lines
cgroup_lines_cases [] failure = inl (tt, refl)
cgroup_lines_cases (line ∷ lines) failure =
    go (cgroup_line line) refl (cgroup_lines_cases lines failure)
  where
    go :
        (o : Option Text)
        → cgroup_line line ≡ o
        → (All (λ l. cgroup_line l ≡ none) lines × (cgroup_lines lines failure ≡ ([], failure)))
          ⊎ ((id : Text) × FirstNamed lines id × (cgroup_lines lines failure ≡ (id, none)))
        → (All (λ l. cgroup_line l ≡ none) (line ∷ lines)
            × (cgroup_lines (line ∷ lines) failure ≡ ([], failure)))
          ⊎ ((id : Text) × FirstNamed (line ∷ lines) id
              × (cgroup_lines (line ∷ lines) failure ≡ (id, none)))
    go (some id) e rest = inr (id, ([], line, lines, refl, tt, e), ground (arith, e))
    go none e (inl (h, k)) = inl ((e, h), ground (arith, e))
    go none e (inr (id, (pre, l, post, split, h, found), k)) =
        inr (id, (line ∷ pre, l, post, ap (λ t. line ∷ t) split, (e, h), found), ground (arith, e))

-- The result is the ID of the first line that names one, with no error; if no line names one, it is
-- empty, with the error of the reader if it had one.
pub parse_cgroup_cases :
    (cgroup : Scanned)
    → (All (λ l. cgroup_line l ≡ none) cgroup.lines × (parse_cgroup cgroup ≡ ([], cgroup.failure)))
      ⊎ ((id : Text) × FirstNamed cgroup.lines id × (parse_cgroup cgroup ≡ (id, none)))
unfolding parse_cgroup
parse_cgroup_cases cgroup = cgroup_lines_cases cgroup.lines cgroup.failure

-- A hexadecimal digit is none of the other characters of the affixes.
hex_other : (c : ℕ) → is_hex c ≡ true → (c ≢ b'.') × (c ≢ b'o') × (c ≢ b'/')
hex_other c h = ground arith

all_hex-Lacks : (s : Text) → all_hex s ≡ true → Lacks b'.' s × Lacks b'/' s
unfolding all_hex
all_hex-Lacks [] h = (tt, tt)
all_hex-Lacks (c ∷ s) h =
    let e : is_hex c ≡ true = ground arith in
    let (a, b) = all_hex-Lacks s (ground arith) in let (p, q, r) = hex_other c e in ((p, a), (r, b))

trim_prefix_none :
    (c d : ℕ) (s : Text) → d ≢ b'o' → trim_prefix (c ∷ d ∷ s) (codes "docker-") ≡ c ∷ d ∷ s
unfolding trim_prefix
trim_prefix_none c d s h = ground arith

trim_prefix_id : (id : Text) → is_container_id id ≡ true → trim_prefix id (codes "docker-") ≡ id
unfolding is_container_id
trim_prefix_id [] h = cc
trim_prefix_id (c ∷ []) h = cc
trim_prefix_id (c ∷ d ∷ s) h =
    trim_prefix_none c d s (hex_other d (unfold all_hex in ground arith)).1

id-Lacks : (id : Text) → is_container_id id ≡ true → Lacks b'.' id × Lacks b'/' id
unfolding is_container_id
id-Lacks id h = all_hex-Lacks id (ground arith)

bare_id : (id : Text) → is_container_id id ≡ true → bare id ≡ id
unfolding bare
bare_id id h = rw (trim_suffix_none id (codes "scope") b'.' (id-Lacks id h).0) (trim_prefix_id id h)

bare_scope :
    (id : Text) → is_container_id id ≡ true → bare (codes "docker-" ++ (id ++ codes ".scope")) ≡ id
unfolding bare trim_prefix
bare_scope id h =
    ap (λ t. trim_prefix t (codes "docker-"))
      (trim_suffix-append (codes "docker-" ++ id) (codes "scope") b'.'
        (docker_lacks id (id-Lacks id h).0))
  where
    docker_lacks : (id : Text) → Lacks b'.' id → Lacks b'.' (codes "docker-" ++ id)
    docker_lacks id h = All-append _ (codes "docker-") id (omega arith) h

id_among_hit :
    (part : Text) (parts : List Text) {id : Text}
    → bare part ≡ id
    → is_container_id id ≡ true
    → id_among (part ∷ parts) ≡ some id
unfolding id_among
id_among_hit part parts e h = ground arith

-- A line is cut into its three fields.
cgroup_line_path :
    (hierarchy controllers path : Text)
    → Lacks b':' hierarchy
    → Lacks b':' controllers
    → cgroup_line (hierarchy ++ b':' ∷ (controllers ++ b':' ∷ path)) ≡ id_among (split b'/' path)
unfolding cgroup_line
cgroup_line_path hierarchy controllers path hh hc =
    ap path_id (
      split_n-append b':' hierarchy (controllers ++ b':' ∷ path) 1 hh
      ∙ ap (λ l. hierarchy ∷ l) (split_n-append b':' controllers path 0 hc))
    ∙ unfold split_n in refl

id_among_pass :
    (part : Text) (parts : List Text)
    → id_among (part ∷ []) ≡ none
    → id_among (part ∷ parts) ≡ id_among parts
unfolding id_among
id_among_pass part parts h = ground arith

id_among_path :
    (slice last id : Text)
    → Lacks b'/' slice
    → Lacks b'/' last
    → id_among (slice ∷ []) ≡ none
    → bare last ≡ id
    → is_container_id id ≡ true
    → id_among (split b'/' (b'/' ∷ (slice ++ b'/' ∷ last))) ≡ some id
id_among_path slice last id hs hl other e h =
    ap id_among (
      split-append b'/' [] (slice ++ b'/' ∷ last) tt
      ∙ ap (λ l. [] ∷ l)
          (split-append b'/' slice last hs ∙ ap (λ l. slice ∷ l) (split_whole b'/' last hl)))
    ∙ id_among_pass [] (slice ∷ last ∷ [])
        (unfold id_among bare trim_suffix trim_prefix is_container_id in refl)
    ∙ id_among_pass slice (last ∷ []) other
    ∙ id_among_hit last [] e h

-- A line with the path /SLICE/ID, or with the path /SLICE/docker-ID.scope, names that container ID,
-- whatever its hierarchy and its controllers are, if the slice itself names none.
pub cgroup_line_docker :
    (hierarchy controllers slice id : Text)
    → Lacks b':' hierarchy
    → Lacks b':' controllers
    → Lacks b'/' slice
    → id_among (slice ∷ []) ≡ none
    → is_container_id id ≡ true
    → (cgroup_line (hierarchy ++ b':' ∷ (controllers ++ b':' ∷ b'/' ∷ (slice ++ b'/' ∷ id)))
        ≡ some id)
      × (cgroup_line (
            hierarchy
            ++ b':'
              ∷ (controllers
                  ++ b':' ∷ b'/' ∷ (slice ++ b'/' ∷ (codes "docker-" ++ (id ++ codes ".scope")))))
          ≡ some id)
cgroup_line_docker hierarchy controllers slice id hh hc hs other h =
    let (dots, slashes) = id-Lacks id h in
    (
      cgroup_line_path hierarchy controllers _ hh hc
          ∙ id_among_path slice id id hs slashes other (bare_id id h) h,
      cgroup_line_path hierarchy controllers _ hh hc
          ∙ id_among_path slice (codes "docker-" ++ (id ++ codes ".scope")) id hs
              (All-append _ (codes "docker-") _ (omega arith)
                (All-append _ id (codes ".scope") slashes (omega arith)))
              other (bare_scope id h) h,
    )
