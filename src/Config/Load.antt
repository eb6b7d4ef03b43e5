-- ===== src/Config/Load.antt =====
-- `LoadVoice`, with the splice of the legacy prefix and `verifyTempDir` (internal/infra/config/config.go). viper, the
-- file system and the user id are parameters.
use a2text.Base.{
  ℕ, ◌<◌, not, ◌||◌, ◌&&◌, ◌==◌, ◌^◌, Bool, true, false, Option, none, some, List, [], ◌∷◌, ◌++◌,
  Text, String, is_empty, trim_space, ◌≡◌, refl, ◌↔◌, ◌⊎◌, inl, inr, arith, if◌then◌else◌,
}
use a2text.Base.Int.{ℤ, pos, ltb_ℤ}
use a2text.Config.Schema.{VoiceConfig, ConfigError}
use a2text.Config.Url.{Url}
use a2text.Config.Validate.{validate_config}
use a2text.Config.Keys.{check_unknown_keys}

-- `strings.TrimRight(t, "/")`
unfoldable pub trim_slashes : Text → Text
trim_slashes [] = []
trim_slashes (c ∷ cs) =
    let rest = trim_slashes cs in if c == 47 && is_empty rest then [] else c ∷ rest

starts_with_slash : Text → Bool
starts_with_slash [] = false
starts_with_slash (c ∷ cs) = c == 47

-- The new value of `go_whisper.url`, from the values of `go_whisper.prefix` and `go_whisper.url`.
unfoldable pub splice_prefix : Text → Text → Option Text
unfolding starts_with_slash
splice_prefix raw url =
    if is_empty (trim_space raw)
    then none
    else some (
        trim_slashes url
        ++ (if starts_with_slash (trim_space raw) then trim_space raw else 47 ∷ trim_space raw))

-- What `os.Stat` tells; `owner` is none where the platform has none.
pub record FileInfo : Type 0 where
  pub is_dir : Bool
  pub owner : Option ℕ
  pub perm : ℕ

pub data LoadError : Type 0 where
  read_failed unmarshal_failed make_failed stat_failed : String → LoadError
  unknown_keys : List Text → LoadError
  invalid : ConfigError → LoadError
  not_a_directory uid_out_of_range wrong_owner wrong_mode : LoadError

-- An outcome of a step that may fail.
pub data Step {ℓ} (A : Type ℓ) : Type ℓ where
  ok : A → Step A
  failed : String → Step A

pub Step-cases {ℓ} :
    {A : Type ℓ} (s : Step A) → ((a : A) × (s ≡ ok a)) ⊎ ((e : String) × (s ≡ failed e))
Step-cases (ok a) = inl (a, refl)
Step-cases (failed e) = inr (e, refl)

-- What reading the file gives: all keys, or that there is no file, or a failure.
pub data Source : Type 0 where
  keys : List Text → Source
  not_found : String → Source
  broken : String → Source

-- `V` is a viper instance, and `viper` the one behind the first `ReadInConfig`, whose outcome is `read`. `merge_local` is
-- what `mergeLocalOverride` makes of an instance, which is the instance itself if ./config.local.yaml cannot be read.
-- `prefix` and `url` read an instance with the environment bound, and `unmarshal` takes the URL that was set, if one
-- was.
pub record Environment (V : Type 0) : Type 0 where
  pub explicit_path : Bool
  pub read : Source
  pub viper : V
  pub merge_local : V → V
  pub prefix : V → Text
  pub url : V → Text
  pub unmarshal : Option Text → V → Step VoiceConfig
  pub private_temp_dir : Text
  pub make_all : Text → Option String
  pub stat : Text → Step FileInfo
  pub uid : ℤ

abbrev refused : Option (List Text) → Option LoadError
refused none = none
refused (some ks) = some (unknown_keys ks)

unfoldable pub merged : {V : Type 0} → (V → V) → V → Option LoadError → Option LoadError × V
merged merge v none = (none, merge v)
merged merge v (some e) = (some e, v)

-- `readVoiceConfig`: with no explicit path a missing file is no error, and the local file is merged into a file that is
-- there, behind the check of that file's keys.
unfoldable pub read_voice_config : {V : Type 0} → Bool → Source → (V → V) → V → Option LoadError × V
unfolding merged
read_voice_config true (keys ks) merge v = (refused (check_unknown_keys ks), v)
read_voice_config false (keys ks) merge v = merged merge v (refused (check_unknown_keys ks))
read_voice_config true (not_found e) merge v = (some (read_failed e), v)
read_voice_config false (not_found e) merge v = (none, v)
read_voice_config path (broken e) merge v = (some (read_failed e), v)

unfoldable pub same_owner : ℤ → Option ℕ → Bool
same_owner (pos n) (some o) = n == o
same_owner _ _ = false

abbrev pub owner_checked : ℤ → ℕ → FileInfo → Option LoadError
owner_checked uid o info =
    if ltb_ℤ uid (pos 0) || ltb_ℤ (pos 4294967295) uid
    then some uid_out_of_range
    else if not (same_owner uid (some o))
    then some wrong_owner
    else if not (info.perm == 448)
    then some wrong_mode
    else none

unfoldable pub verify_temp_dir : ℤ → Step FileInfo → Option LoadError
unfolding same_owner
verify_temp_dir uid (failed e) = some (stat_failed e)
verify_temp_dir uid (ok info) =
    if not info.is_dir
    then some not_a_directory
    else elim info.owner [ none ↦ none | some o ↦ owner_checked uid o info ]

-- The configuration that is returned, or the error.
pub data Load : Type 0 where
  loaded : VoiceConfig → Load
  refused_with : LoadError → Load

unfoldable pub checked_dir : VoiceConfig → Option LoadError → Load
checked_dir c none = loaded c
checked_dir c (some e) = refused_with e

unfoldable pub made_dir : {V : Type 0} → Environment V → VoiceConfig → Option String → Load
unfolding checked_dir
made_dir env c (some e) = refused_with (make_failed e)
made_dir env c none = checked_dir c (verify_temp_dir env.uid (env.stat c.temp_dir))

unfoldable pub validated : {V : Type 0} → Environment V → Option ConfigError × VoiceConfig → Load
unfolding made_dir
validated env (some e, c) = refused_with (invalid e)
validated env (none, c) = made_dir env c (env.make_all c.temp_dir)

-- An empty `temp_dir` is replaced by the private directory under the system's.
unfoldable pub with_temp_dir : Text → VoiceConfig → VoiceConfig
with_temp_dir dir c = if is_empty c.temp_dir then record c { temp_dir = dir } else c

module _ {V : Type 0} (to_lower : ℕ → ℕ) (parse : Text → Option Url) (env : Environment V) where
  unfoldable pub unmarshalled : Step VoiceConfig → Load
  unfolding validated
  unmarshalled (failed e) = refused_with (unmarshal_failed e)
  unmarshalled (ok c) =
      validated env (validate_config to_lower parse (with_temp_dir env.private_temp_dir c))

  unfoldable pub after_read : Option LoadError → V → Load
  unfolding unmarshalled
  after_read (some e) v = refused_with e
  after_read none v = unmarshalled (env.unmarshal (splice_prefix (env.prefix v) (env.url v)) v)

  unfoldable pub load_voice : Load
  unfolding after_read
  load_voice =
      let r = read_voice_config env.explicit_path env.read env.merge_local env.viper in
      after_read r.0 r.1

-- What is required of the temporary directory: a directory of the user's, with mode 0700, where it has an owner.
pub record IsPrivateDir (uid : ℤ) (info : FileInfo) : Type 0 where
  pub directory : info.is_dir ≡ true
  pub own : {o : ℕ} → info.owner ≡ some o → (uid ≡ pos o) × (info.perm ≡ 448)

verify_temp_dir_iff :
    (uid : ℤ) (info : FileInfo) {o : ℕ}
    → info.owner ≡ some o
    → o < 2 ^ 32
    → (verify_temp_dir uid (ok info) ≡ none)
      ↔ ((info.is_dir ≡ true) × (uid ≡ pos o) × (info.perm ≡ 448))
unfolding verify_temp_dir same_owner
verify_temp_dir_iff (pos n) info h lt = rw (h, verify_temp_dir) (ground arith)
verify_temp_dir_iff (ℤ.negsuc n) info h lt = rw (h, verify_temp_dir) (ground arith)
