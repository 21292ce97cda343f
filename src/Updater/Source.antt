-- ===== src/Updater/Source.antt =====
-- internal/updater/source.go: the release source's checks around the update library, and the reader
-- that counts a download. The library, the network and the disk are arguments. A percentage is
-- counted exactly, in parts of 1 / total of a percent, where the source has a float64.
use rig_exporter.Base.{
  ℕ, ◌+◌, ◌*◌, min, Bool, true, false, not, ◌&&◌, ◌||◌, Option, none, some, List, [], ◌∷◌, ◌++◌,
  ltb, leb, ◌==◌, if◌then◌else◌, take, Outcome, ok, err,
}
use rig_exporter.Base.Text.{codes}

abbrev pub Text : Type 0
Text = List ℕ

-- 50 << 20
abbrev pub max_release_size : ℕ
max_release_size = 52428800

-- countingReader; `reported` is in parts of 1 / total of a percent
pub record CountingReader : Type 0 where
  pub total : ℕ
  pub read : ℕ
  pub reported : ℕ

-- What the reader has counted, in those parts, at most 100 percent.
unfoldable pub percent_of : CountingReader → ℕ
percent_of r = min (100 * r.read) (100 * r.total)

-- `Read`, where the inner reader gave `n` bytes: the reader, and what is reported, if anything is.
unfoldable pub read : CountingReader → ℕ → CountingReader × Option ℕ
unfolding percent_of
read r n =
    if not (ltb 0 n)
    then (r, none)
    else (let r' = record r { read = r.read + n } in
        let percent = percent_of r' in
        if leb (r'.reported + r'.total) percent
        then (record r' { reported = percent }, some percent)
        else (r', none))

abbrev pub note : Option ℕ → List ℕ → List ℕ
note none reports = reports
note (some p) reports = p ∷ reports

-- A download, as the sizes that the inner reader gives: the reader, and the reports in order.
unfoldable pub read_all : CountingReader → List ℕ → CountingReader × List ℕ
read_all r [] = (r, [])
read_all r (n ∷ ns) =
    let (r', report) = read r n in let (r'', reports) = read_all r' ns in (r'', note report reports)

-- What the update library says of a release.
pub record Native : Type 0 where
  pub version : Text
  pub release_notes : Text
  pub url : Text
  pub asset_id : ℕ
  pub asset_name : Text
  pub asset_byte_size : ℕ

pub record Release : Type 0 where
  pub version : Text
  pub notes : Text
  pub url : Text
  pub size : ℕ
  pub native : Option Native

-- The part of `DownloadReleaseAsset` behind the download: what the wrapped reader delivers of the
-- payload, and whether it is counted.
unfoldable pub download_release_asset :
    ℕ → Bool → Option Native → ℕ → List ℕ → List ℕ × Option CountingReader
download_release_asset max_bytes has_progress none asset_id payload =
    (take (max_bytes + 1) payload, none)
download_release_asset max_bytes has_progress (some release) asset_id payload = (
  take (max_bytes + 1) payload,
  if has_progress && asset_id == release.asset_id && ltb 0 release.asset_byte_size
      then some (record { total = release.asset_byte_size; read = 0; reported = 0 })
      else none,
)

unfoldable pub release_asset_name : Text → Text
release_asset_name version = codes "rig-exporter_" ++ (version ++ codes "_windows_amd64.exe.zip")

abbrev pub text_eq : Text → Text → Bool
text_eq [] [] = true
text_eq (a ∷ s) (b ∷ t) = a == b && text_eq s t
text_eq _ _ = false

pub data SourceError : Type 0 where
  detect_failed prepare_failed update_failed : Text → SourceError
  unexpected_asset : Text → SourceError
  provider_metadata_missing provider_version_changed : SourceError
  asset_size : ℕ → SourceError

-- What the library's DetectLatest answers.
pub data Detected : Type 0 where
  detect_error : Text → Detected
  nothing : Detected
  detected : Native → Detected

unfoldable pub latest : Detected → Outcome SourceError (Option Release)
latest (detect_error e) = err (detect_failed e)
latest nothing = ok none
latest (detected release) =
    if not (text_eq release.asset_name (release_asset_name release.version))
    then err (unexpected_asset release.asset_name)
    else ok (
        some (record {
          version = release.version;
          notes = release.release_notes;
          url = release.url;
          size = release.asset_byte_size;
          native = some release;
        }))

-- How the two calls of `Stage` that touch the disk and the network end.
pub record Staging : Type 0 where
  pub copy : Option Text
  pub update : Option Text

unfoldable pub stage_download : Staging → Outcome SourceError (Unit {0})
stage_download s = elim s.copy [
  | some e ↦ err (prepare_failed e)
  | none ↦ elim s.update [ some e ↦ err (update_failed e) | none ↦ ok tt ]
]

unfoldable pub stage_native : Staging → Text → Native → Outcome SourceError (Unit {0})
unfolding stage_download
stage_native s version native =
    if not (text_eq native.version version)
    then err provider_version_changed
    else if not (text_eq native.asset_name (release_asset_name version))
    then err (unexpected_asset native.asset_name)
    else if native.asset_byte_size == 0 || ltb max_release_size native.asset_byte_size
    then err (asset_size native.asset_byte_size)
    else stage_download s

unfoldable pub stage : Staging → Release → Outcome SourceError (Unit {0})
unfolding stage_native
stage s release = elim release.native [
  | none ↦ err provider_metadata_missing
  | some native ↦ stage_native s release.version native
]
