-- ===== src/Config/Loaded.antt =====
-- What `LoadVoice` promises of the configuration that it returns (internal/infra/config/config.go).
use a2text.Base.{
  ℕ, Bool, true, false, Option, Option-cases, none, some, List, Text, codes, one_of, same_text, ◌≡◌,
  ◌≢◌, refl, sym, ap, ◌∙◌, inl, inr, arith, String,
}
use a2text.Base.Int.{ℤ, pos, negsuc}
use a2text.Config.Schema.{VoiceConfig, ConfigError}
use a2text.Config.Url.{Url}
use a2text.Config.Normal.{migrate_legacy_voice_provider}
use a2text.Config.Validate.{check_voice, first_error, validate_config}
use a2text.Config.Valid.{IsValid}
use a2text.Config.Accept.{first_error_iff}
use a2text.Config.Keys.{check_unknown_keys, check_unknown_keys-Among, Among, is_tolerated}
use a2text.Config.Load.{
  FileInfo, LoadError, unknown_keys, merged, Step, Step-cases, ok, failed, keys, Environment,
  read_voice_config, verify_temp_dir, splice_prefix, with_temp_dir, IsPrivateDir, same_owner,
  owner_checked, loaded, checked_dir, made_dir, validated, unmarshalled, after_read, load_voice,
}

owner_checked-none :
    (uid : ℤ) (o : ℕ) (info : FileInfo)
    → owner_checked uid o info ≡ none
    → (uid ≡ pos o) × (info.perm ≡ 448)
unfolding same_owner
owner_checked-none (pos n) o info h = (ap pos (ground arith), ground arith)
owner_checked-none (negsuc n) o info h = ground arith

verify_temp_dir-IsPrivateDir :
    (uid : ℤ) (s : Step FileInfo)
    → verify_temp_dir uid s ≡ none
    → (info : FileInfo) × (s ≡ ok info) × IsPrivateDir uid info
unfolding verify_temp_dir
verify_temp_dir-IsPrivateDir uid (failed e) h = ground arith
verify_temp_dir-IsPrivateDir uid (ok info) h = (
  info,
  refl,
  record {
    directory = ground arith;
    own = λ {o} e. owner_checked-none uid o info (owner info e h);
  },
)
  where
    owner :
        (i : FileInfo) {o : ℕ}
        → i.owner ≡ some o
        → verify_temp_dir uid (ok i) ≡ none
        → owner_checked uid o i ≡ none
    owner i e f = ground arith

checked_dir-loaded :
    {c d : VoiceConfig} (o : Option LoadError) → checked_dir d o ≡ loaded c → (d ≡ c) × (o ≡ none)
unfolding checked_dir
checked_dir-loaded none h = ground arith
checked_dir-loaded (some e) h = ground arith

made_dir-loaded :
    {V : Type 0} (env : Environment V) {c d : VoiceConfig} (o : Option String)
    → made_dir env d o ≡ loaded c
    → (d ≡ c) × (o ≡ none) × (verify_temp_dir env.uid (env.stat d.temp_dir) ≡ none)
unfolding made_dir
made_dir-loaded env none h = let (a, b) = checked_dir-loaded _ h in (a, refl, b)
made_dir-loaded env (some e) h = ground arith

validated-loaded :
    {V : Type 0} (env : Environment V) (c : VoiceConfig) (r : Option ConfigError × VoiceConfig)
    → validated env r ≡ loaded c
    → (r ≡ (none, c))
      × (env.make_all c.temp_dir ≡ none)
      × (verify_temp_dir env.uid (env.stat c.temp_dir) ≡ none)
unfolding validated
validated-loaded env c (some e, d) h = ground arith
validated-loaded env c (none, d) h =
    let (same, made, private) = made_dir-loaded env _ h in
    (
      ap (λ x. (none, x)) same,
      ap (λ (x : VoiceConfig). env.make_all x.temp_dir) (sym same) ∙ made,
      ap (λ (x : VoiceConfig). verify_temp_dir env.uid (env.stat x.temp_dir)) (sym same) ∙ private,
    )

-- A configuration that `LoadVoice` returns is valid and normalised, and at that time its temporary directory could be
-- made and is a directory of the user's with mode 0700, where the platform tells an owner.
pub load_voice-IsValid :
    {V : Type 0} (to_lower : ℕ → ℕ) (parse : Text → Option Url) (env : Environment V)
    {c : VoiceConfig}
    → load_voice to_lower parse env ≡ loaded c
    → IsValid to_lower parse c
      × (env.make_all c.temp_dir ≡ none)
      × ((info : FileInfo) × (env.stat c.temp_dir ≡ ok info) × IsPrivateDir env.uid info)
unfolding load_voice after_read unmarshalled validate_config check_voice
load_voice-IsValid {V} to_lower parse env {c} h = elim (Option-cases (reading.0)) [
  | inr (e, r) ↦ ground arith
  | inl r ↦
      elim (Step-cases
        (env.unmarshal (splice_prefix (env.prefix reading.1) (env.url reading.1)) reading.1)) [
          | inr (e, u) ↦ ground arith
          | inl (raw, u) ↦
              let (same, made, private) =
                validated-loaded env c
                  (validate_config to_lower parse (with_temp_dir env.private_temp_dir raw))
                  (ground arith) in
              (
                (first_error_iff to_lower parse c).0 (
                    settled (migrate_legacy_voice_provider (with_temp_dir env.private_temp_dir raw))
                      same),
                made,
                verify_temp_dir-IsPrivateDir env.uid (env.stat c.temp_dir) private,
              )
        ]
]
  where
    reading : Option LoadError × V
    reading = read_voice_config env.explicit_path env.read env.merge_local env.viper

    settled :
        (d : VoiceConfig)
        → check_voice to_lower parse d ≡ (none, c)
        → first_error to_lower parse c ≡ none
    settled d same = ap (first_error to_lower parse) (sym (ap (λ r. r.1) same)) ∙ ap (λ r. r.0) same

-- A configuration file whose keys are refused ends the read with an error, whatever would be merged into it.
read_voice_config-refused :
    {V : Type 0} (path : Bool) (ks : List Text) (merge : V → V) (v : V) {bad : List Text}
    → check_unknown_keys ks ≡ some bad
    → (read_voice_config path (keys ks) merge v).0 ≡ some (unknown_keys bad)
unfolding read_voice_config merged
read_voice_config-refused true ks merge v h = rw h refl
read_voice_config-refused false ks merge v h = rw h refl

-- The configuration file itself with the legacy key `go_whisper.prefix` is refused, although the loader has a step that
-- splices its value into the URL.
pub load_voice_refuses_prefix :
    {V : Type 0} (to_lower : ℕ → ℕ) (parse : Text → Option Url) (env : Environment V)
    (c : VoiceConfig) {ks : List Text}
    → env.read ≡ keys ks
    → Among (codes "go_whisper.prefix") ks
    → load_voice to_lower parse env ≢ loaded c
unfolding load_voice after_read is_tolerated one_of same_text
load_voice_refuses_prefix to_lower parse env c {ks} r m h =
    elim (Option-cases (check_unknown_keys ks)) [
      | inl e ↦ check_unknown_keys-Among refl m e
      | inr (bad, e) ↦
          let error : (read_voice_config env.explicit_path env.read env.merge_local env.viper).0
              ≡ some (unknown_keys bad) =
            ap (λ s. (read_voice_config env.explicit_path s env.merge_local env.viper).0) r
            ∙ read_voice_config-refused env.explicit_path ks env.merge_local env.viper e in
          ground arith
    ]

-- A prefix that the local file brings is spliced, behind a configuration file whose keys pass: its keys are not
-- checked.
pub load_voice_splices_local :
    {V : Type 0} (to_lower : ℕ → ℕ) (parse : Text → Option Url) (env : Environment V)
    {ks : List Text}
    → env.explicit_path ≡ false
    → env.read ≡ keys ks
    → check_unknown_keys ks ≡ none
    → load_voice to_lower parse env
      ≡ unmarshalled to_lower parse env (
          env.unmarshal
            (splice_prefix
              (env.prefix (env.merge_local env.viper))
              (env.url (env.merge_local env.viper)))
            (env.merge_local env.viper))
unfolding load_voice after_read read_voice_config merged
load_voice_splices_local to_lower parse env p r n = ground (arith, p, r, n)
