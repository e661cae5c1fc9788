-- ===== src/File/Sweep.antt =====
-- internal/adapter/outbound/file/writer.go: the goroutines of `cleanup` that rotations start.
--
-- Parameter: `join`, the path of a name in the directory of the active file (`filepath.Join`).
use dns_flow.Prelude.{ℕ, zero, suc, ◌≡◌, refl, ◌∙◌, Text, false, List, [], ◌∷◌, Option}
use dns_flow.Prelude.Int.{ℤ, pos, ltb_ℤ}
use dns_flow.Prelude.Dict
use dns_flow.Prelude.Dict.{Dict}
use dns_flow.File.{Config, Writer}
use dns_flow.File.Cleanup.{max_age, cleanup}

-- The names in the directory and the ages of the files when a clean-up runs.
pub record Directory : Type 0 where
  pub entries : List Text
  pub age : Text → Option ℤ

module _ (join : Text → Text) (cfg : Config) where
  -- `os.Remove` of each name.
  unfoldable pub remove_all : List Text → Dict Text → Dict Text
  remove_all [] files = files
  remove_all (name ∷ names) files = remove_all names (Dict.delete (join name) files)

  unfoldable pub sweep_from : ℕ → Directory → Writer → Writer
  unfolding remove_all
  sweep_from zero dir w = w
  sweep_from (suc n) dir w = record w {
    files = remove_all (cleanup cfg dir.age dir.entries) w.files;
    cleanups = n;
  }

  -- One goroutine that was started runs; it leaves the open file and its size as they are.
  unfoldable pub sweep : Directory → Writer → Writer
  unfolding sweep_from
  sweep dir w = sweep_from w.cleanups dir w

  unfoldable pub sweeps : List Directory → Writer → Writer
  unfolding sweep
  sweeps [] w = w
  sweeps (dir ∷ dirs) w = sweeps dirs (sweep dir w)

  -- Neither old backups nor backups beyond a number are to be removed.
  abbrev pub KeepsAll : Type 0
  KeepsAll = (ltb_ℤ (pos 0) (max_age cfg) ≡ false) × (ltb_ℤ (pos 0) cfg.max_backups ≡ false)

  sweep_from-KeepsAll :
      (n : ℕ) (dir : Directory) (w : Writer)
      → KeepsAll
      → ((sweep_from n dir w).files ≡ w.files) × ((sweep_from n dir w).is_open ≡ w.is_open)
  unfolding sweep_from cleanup remove_all
  sweep_from-KeepsAll zero dir w (aged, many) = (refl, refl)
  sweep_from-KeepsAll (suc n) dir w (aged, many) = rw (aged, many, cleanup) (refl, refl)

  pub sweeps-KeepsAll :
      (dirs : List Directory) (w : Writer)
      → KeepsAll
      → ((sweeps dirs w).files ≡ w.files) × ((sweeps dirs w).is_open ≡ w.is_open)
  unfolding sweeps sweep
  sweeps-KeepsAll [] w all = (refl, refl)
  sweeps-KeepsAll (dir ∷ dirs) w all =
      let one = sweep_from-KeepsAll w.cleanups dir w all in
      let rest = sweeps-KeepsAll dirs (sweep dir w) all in (rest.0 ∙ one.0, rest.1 ∙ one.1)
