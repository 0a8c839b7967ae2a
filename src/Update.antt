-- ===== src/Update.antt =====
-- source/update/update.c: the unpacking of an update and the updates one after the other. What the card,
-- curl and libzip answer is a parameter, which may depend on all that was done before; what the code does
-- to the card is a log. What is shown and the look at the power button are left out.
use rr_launcher.Prelude.{
  ℕ, zero, suc, ◌+◌, ◌-◌, ◌*◌, ◌%◌, ◌^◌, Bool, true, false, ◌&&◌, ◌||◌, not, if◌then◌else◌, ltb,
  leb, ◌==◌, Option, none, some, List, [], ◌∷◌, ◌++◌, length, Bytes, codes, String,
}
use rr_launcher.Prelude.Int.{ℤ, pos, negsuc}
use rr_launcher.Result.{Outcome, done, error, fatal, fault, ErrorSource}
use rr_launcher.Version.{Version, equals}
use rr_launcher.Version.File.{VersionFile, set_current_version}
use rr_launcher.VersionsFile.{Entry}
pub mod Extract
pub mod Loop
pub mod Stays
pub mod Paths
pub mod Installed
pub mod Unpacking
pub mod Installing
pub mod Unversioned
pub mod Order
mod Tests

-- What is done to the card.
pub data Effect : Type 0 where
  downloaded : Bytes → Effect
  made_dir : Bytes → Effect
  created : Bytes → Effect
  wrote : Bytes → Bytes → Effect
  removed : Bytes → Effect
  versioned : Version → Effect

-- The log, the latest first.
abbrev pub Log : Type 0
Log = List Effect

-- An entry of an archive, and what libzip answers about it.
pub record ZipEntry : Type 0 where
  pub stats : Bool
  pub valid : Bool
  pub valid_size : Bool
  pub size : ℕ
  pub name : Bytes
  pub opens : Bool
  pub chunks : List Bytes
  pub read_ok : Bool

-- `mkdir`, `fopen` for writing, and `remove`.
pub data MadeDir : Type 0 where
  made existed no_dir : MadeDir

pub data OpenedOut : Type 0 where
  opened no_directory not_opened : OpenedOut

pub data Removal : Type 0 where
  gone absent stuck : Removal

pub record Host : Type 0 where
  pub path_max : ℕ
  -- `rrc_sd_get_free_space`
  pub free_space : Log → Outcome ℕ
  -- The content length of a download, -1 where the server does not say.
  pub zip_size : Log → Bytes → Option ℤ
  pub curl_starts : Log → Bool
  pub zip_created : Log → Bool
  pub transfers : Log → Bytes → Bool
  pub zip_stats : Log → Bool
  pub archive : Log → Option (List ZipEntry)
  pub mkdir : Log → Bytes → MadeDir
  pub open_out : Log → Bytes → OpenedOut
  -- How many bytes `fwrite` writes.
  pub accepts : Log → Bytes → ℕ
  pub remove : Log → Bytes → Removal

pub record World : Type 0 where
  pub log : Log
  pub version_file : VersionFile

-- A call that acts on the world.
abbrev pub Run {ℓ} : Type ℓ → Type ℓ
Run A = World → Outcome A × World

abbrev pub return {ℓ} : {A : Type ℓ} → Outcome A → Run A
return o w = (o, w)

abbrev pub carry_on {ℓ κ} :
    {A : Type ℓ} {B : Type κ} → (A → Run B) → Outcome A × World → Outcome B × World
carry_on k (done a, w) = k a w
carry_on k (error source context, w) = (error source context, w)
carry_on k (fatal message, w) = (fatal message, w)
carry_on k (fault, w) = (fault, w)

-- `TRY(x)`, and what follows.
infixr 5 ◌&>=◌ ◌&>◌
abbrev pub ◌&>=◌ {ℓ κ} : {A : Type ℓ} {B : Type κ} → Run A → (A → Run B) → Run B
m &>= k = λ w. carry_on k (m w)

abbrev pub ◌&>◌ {ℓ κ} : {A : Type ℓ} {B : Type κ} → Run A → Run B → Run B
m &> k = m &>= λ _. k

-- What the card answers, and what is done to it.
abbrev pub ask {ℓ} : {A : Type ℓ} → (Log → A) → Run A
ask f w = (done (f w.log), w)

abbrev pub act : Effect → Run (Unit {0})
act e w = (done tt, record { log = e ∷ w.log; version_file = w.version_file })

-- An error, if the condition holds.
abbrev pub fail_if : Bool → ErrorSource → String → Run (Unit {0})
fail_if true source context w = (error source context, w)
fail_if false source context w = (done tt, w)

abbrev pub skip : Run (Unit {0})
skip w = (done tt, w)
