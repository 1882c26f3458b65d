-- ===== src/Config/Disk/Files.antt =====
-- `readConfigs` of config/disk.go: its two ways to treat an error, and the layers over the files.
use burmilla_os.Base.{◌≡◌, refl, Bool, true, false, List, [], ◌∷◌, Text, ◌++◌, arith}
use burmilla_os.Base.Result.{Result, ok, failed, panicked, out_of_fuel, ◌>>=◌}
use burmilla_os.Config.Value.{Fields}
use burmilla_os.Config.Disk.{
  System, ReadResult, content, missing, unreadable, of_read, settle, read_config_file, overlay,
  overlay_file, overlay_files, read_configs, end, load_raw_config_with_error,
  load_raw_disk_config_with_error, load_raw_disk_config, load_raw_config, or_empty, os_config_file,
  oem_config_file, cloud_config_dir_files, cloud_config_file, merge,
}

-- A result or an error, no panic.
abbrev pub IsCalm {ℓ} : {A : Type ℓ} → Result A → Type 0
IsCalm (ok a) = Unit
IsCalm (failed e) = Unit
IsCalm panicked = ⊥
IsCalm out_of_fuel = ⊥

-- The parser and the conversion do not panic.
abbrev pub HasCalmParsers : System → Type 0
HasCalmParsers system =
    ((s : Text) → IsCalm (system.unmarshal s)) × ((m : Fields) → IsCalm (system.convert m))

-- A strict part without an error is the lenient part.
settle_strict :
    (left m : Fields) (r : Result Fields) → settle true left r ≡ ok m → settle false left r ≡ ok m
unfolding settle
settle_strict left m (ok a) e = e
settle_strict left m (failed a) e = cc
settle_strict left m panicked e = cc
settle_strict left m out_of_fuel e = cc

settle_calm :
    (left : Fields) (r : Result Fields) → IsCalm r → (m : Fields) × (settle false left r ≡ ok m)
unfolding settle
settle_calm left (ok a) h = (a, refl)
settle_calm left (failed a) h = (left, refl)
settle_calm left panicked h = absurd h
settle_calm left out_of_fuel h = absurd h

bind-IsCalm {ℓ ℓ'} :
    {A : Type ℓ} {B : Type ℓ'} (r : Result A) (f : A → Result B)
    → IsCalm r
    → ((a : A) → IsCalm (f a))
    → IsCalm (r >>= f)
bind-IsCalm (ok a) f h hf = hf a
bind-IsCalm (failed a) f h hf = tt
bind-IsCalm panicked f h hf = h
bind-IsCalm out_of_fuel f h hf = h

bind_strict :
    (left m : Fields) (r : Result Fields) (f g : Fields → Result Fields)
    → ((a : Fields) → f a ≡ ok m → g a ≡ ok m)
    → (settle true left r >>= f) ≡ ok m
    → (settle false left r >>= g) ≡ ok m
unfolding settle
bind_strict left m (ok a) f g h e = h a e
bind_strict left m (failed a) f g h e = cc
bind_strict left m panicked f g h e = cc
bind_strict left m out_of_fuel f g h e = cc

module _ (system : System) (substitute_vars : Bool) where
  overlay_files_strict :
      (files : List Text) (left m : Fields)
      → overlay_files system substitute_vars true left files ≡ ok m
      → overlay_files system substitute_vars false left files ≡ ok m
  unfolding overlay_files
  overlay_files_strict [] left m e = e
  overlay_files_strict (file ∷ files) left m e =
      bind_strict left m (overlay_file system substitute_vars left file)
        (λ a. overlay_files system substitute_vars true a files)
        (λ a. overlay_files system substitute_vars false a files)
        (λ a. overlay_files_strict files a m) e

  overlay-IsCalm :
      (left : Fields) (bytes : Text)
      → HasCalmParsers system
      → IsCalm (overlay system substitute_vars left bytes)
  unfolding overlay
  overlay-IsCalm left [] h = tt
  overlay-IsCalm left (c ∷ s) (hu, hc) =
      bind-IsCalm _ _ (hu _)
        (λ right. bind-IsCalm (system.convert right) _ (hc right) (λ debug. tt))

  read_config_file-IsCalm : (file : Text) → IsCalm (read_config_file system file)
  unfolding read_config_file of_read
  read_config_file-IsCalm file = go (system.read_file file)
    where
      go : (r : ReadResult) → IsCalm (of_read r)
      go (content s) = tt
      go missing = tt
      go (unreadable e) = tt

  overlay_file-IsCalm :
      (left : Fields) (file : Text)
      → HasCalmParsers system
      → IsCalm (overlay_file system substitute_vars left file)
  unfolding overlay_file
  overlay_file-IsCalm left file h =
      bind-IsCalm (read_config_file system file) _ (read_config_file-IsCalm file)
        (λ bytes. overlay-IsCalm left bytes h)

  overlay_files_lenient :
      (files : List Text) (left : Fields)
      → HasCalmParsers system
      → (m : Fields) × (overlay_files system substitute_vars false left files ≡ ok m)
  unfolding overlay_files
  overlay_files_lenient [] left h = (left, refl)
  overlay_files_lenient (file ∷ files) left h =
      let (m, e) =
        settle_calm left (overlay_file system substitute_vars left file)
          (overlay_file-IsCalm left file h) in
      rw e (overlay_files_lenient files m h)

-- Without `returnErr`, whatever the files hold, there is a configuration and no error, if the parser
-- and the conversion do not panic.
pub read_configs_lenient :
    (system : System) (bytes : Text) (substitute_vars : Bool) (files : List Text)
    → HasCalmParsers system
    → (m : Fields) × (read_configs system bytes substitute_vars false files ≡ ok m)
unfolding read_configs
read_configs_lenient system bytes substitute_vars files h =
    let (left, e) = overlay_files_lenient system substitute_vars files end h in
    rw e (
      settle_calm left (overlay system substitute_vars left bytes)
        (overlay-IsCalm system substitute_vars left bytes h))

-- What is read with `returnErr`, where no error comes up, is read without it too.
pub read_configs_strict :
    (system : System) (bytes : Text) (substitute_vars : Bool) (files : List Text) (m : Fields)
    → read_configs system bytes substitute_vars true files ≡ ok m
    → read_configs system bytes substitute_vars false files ≡ ok m
unfolding read_configs
read_configs_strict system bytes substitute_vars files m e =
    go (overlay_files system substitute_vars true end files) refl
  where
    go :
        (r : Result Fields)
        → overlay_files system substitute_vars true end files ≡ r
        → read_configs system bytes substitute_vars false files ≡ ok m
    go (ok left) q =
        rw (overlay_files_strict system substitute_vars files end left q)
          (settle_strict left m (overlay system substitute_vars left bytes) (rw q at e))
    go (failed a) q = cc (rw q at e)
    go panicked q = cc (rw q at e)
    go out_of_fuel q = cc (rw q at e)

disk_strict :
    (system : System) (m : Fields)
    → load_raw_disk_config_with_error system ≡ ok m
    → load_raw_disk_config system true ≡ m
unfolding load_raw_disk_config_with_error load_raw_disk_config or_empty
disk_strict system m e = go (read_configs system [] true true base) refl
  where
    base : List Text
    base = os_config_file ∷ oem_config_file ∷ []

    own : List Text
    own = cloud_config_dir_files system ++ cloud_config_file ∷ []

    go :
        (r : Result Fields)
        → read_configs system [] true true base ≡ r
        → load_raw_disk_config system true ≡ m
    go (failed a) q = cc (rw q at e)
    go panicked q = cc (rw q at e)
    go out_of_fuel q = cc (rw q at e)
    go (ok raw) q = inner (read_configs system [] true true own) refl
      where
        inner :
            (r : Result Fields)
            → read_configs system [] true true own ≡ r
            → load_raw_disk_config system true ≡ m
        inner (failed a) f = cc (rw (q, f) at e)
        inner panicked f = cc (rw (q, f) at e)
        inner out_of_fuel f = cc (rw (q, f) at e)
        inner (ok additional) f =
            let d : ok (merge raw additional) ≡ ok m = rw (q, f) at e in
            rw
              (
                read_configs_strict system [] true base raw q,
                read_configs_strict system [] true own additional f,
              )
              (ground (arith, d))

-- Where loading the configuration with its errors gives a configuration, the loading that logs the
-- errors gives the same one.
pub load_raw_config_strict :
    (system : System) (m : Fields)
    → load_raw_config_with_error system ≡ ok m
    → load_raw_config system true ≡ ok m
unfolding load_raw_config_with_error load_raw_config
load_raw_config_strict system m e = go (load_raw_disk_config_with_error system) refl
  where
    go :
        (r : Result Fields)
        → load_raw_disk_config_with_error system ≡ r
        → load_raw_config system true ≡ ok m
    go (ok raw) q = rw (disk_strict system raw q) (rw q at e)
    go (failed a) q = cc (rw q at e)
    go panicked q = cc (rw q at e)
    go out_of_fuel q = cc (rw q at e)
