-- ===== src/ContainerId/MountInfo.antt =====
-- What `parseMountInfo` finds.
use burmilla_os.Base.{
  ◌≡◌, ◌∙◌, if◌then◌else◌, ◌≢◌, refl, ap, true, ◌&&◌, ◌⊎◌, inl, inr, List, [], ◌∷◌, ◌++◌, ◌∙◌, Text,
  Bool-cases, arith, codes, text_eq, text_eq_iff, if◌then◌else◌,
}
use burmilla_os.Strings.{fields, split, fields}
use burmilla_os.ContainerId.{
  mount_fields, note, Found, mount_lines, mount_line, either, parse_mount_info, Scanned, contains,
  container_mount_points, Scanned, Found, is_container_id, id_behind, container_id_from_path,
  contains, container_mount_points, note, mount_line, mount_lines, either, parse_mount_info,
}

-- An element of a path that names a container: the one behind "containers".
abbrev pub Named : List Text → Text → Type 0
Named parts id =
    (before : List Text) × (after : List Text) × (parts ≡ before ++ codes "containers" ∷ id ∷ after)

id_behind-Named :
    (parts : List Text)
    → id_behind parts ≢ []
    → (is_container_id (id_behind parts) ≡ true) × Named parts (id_behind parts)
unfolding id_behind
id_behind-Named [] h = absurd (h refl)
id_behind-Named (part ∷ []) h = absurd (h refl)
id_behind-Named (part ∷ next ∷ parts) h =
    elim (Bool-cases (text_eq part (codes "containers") && is_container_id next)) [
      | inl e ↦ rw e (
        ground arith,
        (
          [],
          parts,
          ap (λ t. t ∷ next ∷ parts) ((text_eq_iff part (codes "containers")).0 (ground arith)),
        ),
      )
      | inr e ↦ rw e (later (id_behind-Named (next ∷ parts) (rw e at h)))
    ]
  where
    later :
        {id : Text}
        → (is_container_id id ≡ true) × Named (next ∷ parts) id
        → (is_container_id id ≡ true) × Named (part ∷ next ∷ parts) id
    later (v, (pre, post, q)) = (v, (part ∷ pre, post, ap (λ l. part ∷ l) q))

nil_or : (t : Text) → (t ≡ []) ⊎ (t ≢ [])
nil_or [] = inl refl
nil_or (c ∷ t) = inr (λ e. cc)

-- A path gives no ID, or one that is a container ID and stands directly behind an element named
-- "containers".
pub container_id_from_path_sound :
    (path : Text)
    → (container_id_from_path path ≡ [])
      ⊎ ((is_container_id (container_id_from_path path) ≡ true)
          × Named (split b'/' path) (container_id_from_path path))
unfolding container_id_from_path
container_id_from_path_sound path = go (split b'/' path)
  where
    go :
        (parts : List Text)
        → (id_behind parts ≡ [])
          ⊎ ((is_container_id (id_behind parts) ≡ true) × Named parts (id_behind parts))
    go parts = elim (nil_or (id_behind parts)) [
      | inl e ↦ inl e
      | inr h ↦ inr (id_behind-Named parts h)
    ]

-- The first text, if it is not empty, and else the second.
abbrev pub prefer : Text → Text → Text
prefer [] b = b
prefer (c ∷ a) b = c ∷ a

-- The ID that the fields of a line give for one of the files that Docker mounts into containers, and
-- for any other mount point.
abbrev pub mount_id : List Text → Text
mount_id (a ∷ b ∷ c ∷ root ∷ mount_point ∷ more) =
    if contains container_mount_points mount_point then container_id_from_path root else []
mount_id _ = []

abbrev pub other_mount_id : List Text → Text
other_mount_id (a ∷ b ∷ c ∷ root ∷ mount_point ∷ more) =
    if contains container_mount_points mount_point then [] else container_id_from_path root
other_mount_id _ = []

-- The last of the IDs that the lines give.
abbrev pub last_id : (List Text → Text) → List Text → Text
last_id id_of [] = []
last_id id_of (line ∷ lines) = prefer (last_id id_of lines) (id_of (fields line))

prefer_assoc : (a b c : Text) → prefer a (prefer b c) ≡ prefer (prefer a b) c
prefer_assoc [] b c = refl
prefer_assoc (x ∷ a) b c = refl

note_lem :
    (found mount_point : Text) (f : Found)
    → ((note found mount_point f).id
        ≡ prefer (if contains container_mount_points mount_point then found else []) f.id)
      × ((note found mount_point f).other_id
          ≡ prefer (if contains container_mount_points mount_point then [] else found) f.other_id)
unfolding note
note_lem [] mount_point f = ground arith
note_lem (c ∷ found) mount_point f = ground arith

mount_fields_lem :
    (parts : List Text) (f : Found)
    → ((mount_fields parts f).id ≡ prefer (mount_id parts) f.id)
      × ((mount_fields parts f).other_id ≡ prefer (other_mount_id parts) f.other_id)
unfolding mount_fields
mount_fields_lem (a ∷ b ∷ c ∷ root ∷ mount_point ∷ more) f =
    note_lem (container_id_from_path root) mount_point f
mount_fields_lem [] f = (refl, refl)
mount_fields_lem (a ∷ []) f = (refl, refl)
mount_fields_lem (a ∷ b ∷ []) f = (refl, refl)
mount_fields_lem (a ∷ b ∷ c ∷ []) f = (refl, refl)
mount_fields_lem (a ∷ b ∷ c ∷ d ∷ []) f = (refl, refl)

mount_lines_lem :
    (lines : List Text) (f : Found)
    → ((mount_lines lines f).id ≡ prefer (last_id mount_id lines) f.id)
      × ((mount_lines lines f).other_id ≡ prefer (last_id other_mount_id lines) f.other_id)
unfolding mount_lines mount_line
mount_lines_lem [] f = (refl, refl)
mount_lines_lem (line ∷ lines) f =
    let (p, q) = mount_lines_lem lines (mount_fields (fields line) f) in
    let (p', q') = mount_fields_lem (fields line) f in
    (
      p ∙ ap (prefer (last_id mount_id lines)) p' ∙ prefer_assoc (last_id mount_id lines) _ _,
      q
          ∙ ap (prefer (last_id other_mount_id lines)) q'
          ∙ prefer_assoc (last_id other_mount_id lines) _ _,
    )

prefer-nil : (a : Text) → prefer a [] ≡ a
prefer-nil [] = refl
prefer-nil (c ∷ a) = refl

either_lem : (f : Found) → either f ≡ prefer f.id f.other_id
unfolding either
either_lem f = ground arith

-- The result is the ID of the last line about one of the files that Docker mounts into every
-- container; without such a line, that of the last line about any other mount point; the error is
-- the reader's.
pub parse_mount_info_lem :
    (mount_info : Scanned)
    → parse_mount_info mount_info ≡ (
      prefer (last_id mount_id mount_info.lines) (last_id other_mount_id mount_info.lines),
      mount_info.failure,
    )
unfolding parse_mount_info
parse_mount_info_lem mount_info =
    let f : Found = record { id = []; other_id = [] } in
    let (p, q) = mount_lines_lem mount_info.lines f in
    ap (λ (t : Text). (t, mount_info.failure))
      (either_lem (mount_lines mount_info.lines f)
        ∙ cc (
          p ∙ prefer-nil (last_id mount_id mount_info.lines),
          q ∙ prefer-nil (last_id other_mount_id mount_info.lines),
        ))
