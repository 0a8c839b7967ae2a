-- ===== src/Update/Installed.antt =====
-- What it is that source/update/update.c installs an update: the download, each file of the archive written
-- whole, and the removal of what the update deletes, as relations between the log before and after.
use rr_launcher.Prelude.{
  ℕ, ◌≡◌, ◌⊎◌, refl, Bool, true, false, some, List, [], ◌∷◌, ◌++◌, length, Bytes, String,
}
use rr_launcher.Result.{Outcome, done, error, fatal, fault, ErrorSource}
use rr_launcher.Version.{Version, equals}
use rr_launcher.VersionsFile.{Entry}
use rr_launcher.Update.{
  downloaded, created, wrote, removed, absent, Log, ZipEntry, Host, World, Run, carry_on, ◌&>◌,
  fail_if,
}
use rr_launcher.Update.Extract.{ends_in_slash}
use rr_launcher.Update.Loop.{zip_name}

module _ (host : Host) where
  -- The chunks of a file, one after the other, each taken whole by the card.
  abbrev pub Written : Bytes → List Bytes → Log → Log → Type 0
  Written path [] before after = after ≡ before
  Written path (chunk ∷ chunks) before after =
      (host.accepts before chunk ≡ length chunk)
      × Written path chunks (wrote path chunk ∷ before) after

  -- A file of the archive: it is created, after the directories that it needs, and written whole.
  abbrev pub Unpacked : ZipEntry → Log → Log → Type 0
  Unpacked e before after =
      (dirs : Log) × Written e.name e.chunks (created e.name ∷ (dirs ++ before)) after
      × (e.read_ok ≡ true)

  -- The entries of an archive, one after the other; nothing is done for a directory.
  abbrev pub Extracted : List ZipEntry → Log → Log → Type 0
  Extracted [] before after = after ≡ before
  Extracted (e ∷ entries) before after =
      (mid : Log) × (((ends_in_slash e.name ≡ true) × (mid ≡ before))
        ⊎ ((ends_in_slash e.name ≡ false) × Unpacked e before mid))
      × Extracted entries mid after

  -- A file that the update deletes is removed, or is not there.
  abbrev pub Removed : Bytes → Log → Log → Type 0
  Removed path before after =
      (after ≡ removed path ∷ before) ⊎ ((host.remove before path ≡ absent) × (after ≡ before))

  abbrev pub Deleted : Version → List Entry → Log → Log → Type 0
  Deleted version [] before after = after ≡ before
  Deleted version (file ∷ files) before after =
      (mid : Log) × (((equals file.version version ≡ false) × (mid ≡ before))
        ⊎ ((equals file.version version ≡ true) × Removed file.target before mid))
      × Deleted version files mid after

  -- An update is installed: its archive comes whole and opens, all its entries are extracted, the archive is
  -- removed, and then the files that the update deletes.
  pub record Installed (update : Entry) (files : List Entry) (before after : Log) : Type 0 where
    pub entries : List ZipEntry
    pub unpacked : Log
    pub whole : host.transfers (downloaded update.target ∷ before) update.target ≡ true
    pub archive : host.archive (downloaded update.target ∷ before) ≡ some entries
    pub extracted : Extracted entries (downloaded update.target ∷ before) unpacked
    pub deleted : Deleted update.version files (removed zip_name ∷ unpacked) after

-- What holds of a call's result and the card after it, if it succeeds.
abbrev pub Post {ℓ} : {A : Type ℓ} → (A → World → Type 0) → Outcome A × World → Type 0
Post Q (done a, w) = Q a w
Post Q (error source context, w) = Unit
Post Q (fatal message, w) = Unit
Post Q (fault, w) = Unit

pub bind-Post {ℓ κ} :
    {A : Type ℓ} {B : Type κ} (Q : B → World → Type 0) (P : A → World → Type 0) (k : A → Run B)
    (r : Outcome A × World)
    → Post P r
    → ((a : A) (v : World) → P a v → Post Q (k a v))
    → Post Q (carry_on k r)
bind-Post Q P k (done a, v) p h = h a v p
bind-Post Q P k (error source context, v) p h = tt
bind-Post Q P k (fatal message, v) p h = tt
bind-Post Q P k (fault, v) p h = tt

pub Post-map {ℓ} :
    {A : Type ℓ} (P Q : A → World → Type 0) (r : Outcome A × World)
    → ((a : A) (v : World) → P a v → Q a v)
    → Post P r
    → Post Q r
Post-map P Q (done a, v) h p = h a v p
Post-map P Q (error source context, v) h p = tt
Post-map P Q (fatal message, v) h p = tt
Post-map P Q (fault, v) h p = tt

pub guard-Post {ℓ} :
    {A : Type ℓ} (Q : A → World → Type 0) (b : Bool) (source : ErrorSource) (context : String)
    (k : Run A) (w : World)
    → (b ≡ false → Post Q (k w))
    → Post Q ((fail_if b source context &> k) w)
guard-Post Q true source context k w h = tt
guard-Post Q false source context k w h = h refl

pub fail_if-Post :
    (Q : Unit {0} → World → Type 0) (b : Bool) (source : ErrorSource) (context : String) (w : World)
    → (b ≡ false → Q tt w)
    → Post Q (fail_if b source context w)
fail_if-Post Q true source context w h = tt
fail_if-Post Q false source context w h = h refl

-- `rrc_sd_get_free_space`
pub space-Post {ℓ} :
    {A : Type ℓ} (Q : A → World → Type 0) (f : Outcome ℕ) (k : ℕ → Run A) (w : World)
    → ((n : ℕ) → Post Q (k n w))
    → Post Q (carry_on k (f, w))
space-Post Q (done n) k w h = h n
space-Post Q (error source context) k w h = tt
space-Post Q (fatal message) k w h = tt
space-Post Q fault k w h = tt
