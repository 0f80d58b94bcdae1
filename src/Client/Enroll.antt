-- ===== src/Client/Enroll.antt =====
-- `Enroll` of internal/agent/client.go: the first registration, and the configuration that it
-- leaves for the agent's start.
use codex_monitor_group.Base.{
  ◌≡◌, refl, sym, ◌∙◌, ap, String, false, ◌&&◌, Option, none, some, Result, Done, ok, err,
  no_random, str_eq, if◌then◌else◌, arith, ok-injective, arith, incomplete, Bool-cases, inl, inr,
}
use codex_monitor_group.Base.Int.{pos}
use codex_monitor_group.Store.{Slot, Io, succeeds, json}
use codex_monitor_group.Config
use codex_monitor_group.Config.{
  or_one, Config, Holder, Platform, unix, windows, Dpapi, defaults, is_empty, check_complete,
  opened, disk_unix, disk_form,
}
use codex_monitor_group.Config.Storage.{DpapiLaws, IsEnrolled, unsealed}
use codex_monitor_group.Config.RoundTrip.{load-save, save_ok}
use codex_monitor_group.Config.Identity.{held-SameIdentity}
use codex_monitor_group.Client.{EnrollResponse, RegisterReply, register}

-- The arguments of `Enroll`, and the two keys in base64 that ed25519.GenerateKey gives.
pub record EnrollInput : Type 0 where
  pub server : String
  pub keys : Option (String × String)
  pub codex_home : String
  pub codex_path : String
  pub ccusage_path : String
  pub agent_path : String
  pub state_dir : String

-- strings.TrimRight(server, "/")
unfoldable pub trim_slashes : String → String
trim_slashes String.[] = ""
trim_slashes (String.◌∷◌ c s) =
    let rest = trim_slashes s in
    if is_empty rest && str_eq (String.◌∷◌ c "") "/" then "" else String.◌∷◌ c rest

-- `c` before its defaults.
unfoldable pub new_config : EnrollInput → String → String → EnrollResponse → Config
new_config input public private enrolled = record {
  server_url = trim_slashes input.server;
  device_id = enrolled.device_id;
  student_name = enrolled.student_name;
  device_label = enrolled.device_label;
  private_key = private;
  protected_private_key = "";
  public_key = public;
  otlp_token = enrolled.otlp_token;
  protected_otlp_token = "";
  key_protection = "";
  codex_home = input.codex_home;
  codex_path = input.codex_path;
  ccusage_path = input.ccusage_path;
  agent_path = input.agent_path;
  state_dir = input.state_dir;
  timezone = enrolled.classroom_timezone;
  heartbeat_seconds = enrolled.heartbeat_seconds;
  usage_seconds = enrolled.usage_seconds;
  integrity_seconds = enrolled.integrity_seconds;
  retention_days = pos 0;
  next_sequence = 0;
  expected_config_hash = "";
  otel_listen = "";
}

-- `return nil, err` or `return c, nil` behind config.Save.
abbrev pub returned : Done × Holder → Result Config × Slot Config
returned (ok _, h) = (ok h.config, h.file)
returned (err e, h) = (err e, h.file)

module _ (platform : Platform) (dpapi : Dpapi) where
  unfoldable pub save_new : Io → Slot Config → Config → Result Config × Slot Config
  save_new answers file c =
      returned (Config.save dpapi platform answers (record { config = defaults c; file = file }))

  enroll_with :
      EnrollInput
      → Io
      → Slot Config
      → String × String
      → Result EnrollResponse
      → Result Config × Slot Config
  enroll_with input answers file keys (err e) = (err e, file)
  enroll_with input answers file (public, private) (ok enrolled) =
      save_new answers file (new_config input public private enrolled)

  enroll_keys :
      EnrollInput
      → RegisterReply
      → Io
      → Slot Config
      → Option (String × String)
      → Result Config × Slot Config
  unfolding enroll_with
  enroll_keys input reply answers file none = (err no_random, file)
  enroll_keys input reply answers file (some keys) =
      enroll_with input answers file keys (register reply)

  unfoldable pub enroll :
      EnrollInput → RegisterReply → Io → Slot Config → Result Config × Slot Config
  unfolding enroll_keys
  enroll input reply answers file = enroll_keys input reply answers file input.keys

  returned_ok :
      (r : Done) (h : Holder) (c : Config)
      → (returned (r, h)).0 ≡ ok c
      → (r ≡ ok tt) × (h.config ≡ c) × ((returned (r, h)).1 ≡ h.file)
  returned_ok (ok _) h c e = (refl, ok-injective e, refl)
  returned_ok (err why) h c e = absurd (cc e)

  saved-loads :
      DpapiLaws dpapi
      → (answers : Io) (file : Slot Config) (fresh c : Config) → IsEnrolled (defaults fresh)
      → (save_new answers file fresh).0 ≡ ok c
      → (c' : Config) × ((Config.load dpapi platform succeeds (save_new answers file fresh).1).0
          ≡ ok c')
        × (unsealed c' ≡ unsealed c)
  unfolding save_new
  saved-loads laws answers file fresh c there made =
      let h : Holder = record { config = defaults fresh; file = file } in
      let (saved, held, same) = returned_ok _ _ c made in
      let (c', loaded, agree) = load-save dpapi laws platform answers h there saved in
      (
        c',
        ap (λ s. (Config.load dpapi platform succeeds s).0) same ∙ loaded,
        agree ∙ ap unsealed held,
      )

  -- If the server answers a registration with a device and a token, the keys and the server's
  -- address are not empty, and `Enroll` returns no error, then the configuration that it returns has the
  -- server's device and takes the number 1 next, and a load that can read the file returns it but
  -- for the sealed forms; on Windows provided that the data protection keeps its laws.
  pub enroll-load :
      DpapiLaws dpapi
      → (input : EnrollInput) (reply : RegisterReply) (answers : Io) (file : Slot Config)
        (public private : String) (enrolled : EnrollResponse) (c : Config)
      → input.keys ≡ some (public, private)
      → register reply ≡ ok enrolled
      → is_empty (trim_slashes input.server) ≡ false
      → is_empty private ≡ false
      → is_empty enrolled.device_id ≡ false
      → is_empty enrolled.otlp_token ≡ false
      → (enroll input reply answers file).0 ≡ ok c
      → (c.device_id ≡ enrolled.device_id)
        × (c.next_sequence ≡ 1)
        × ((c' : Config) × ((Config.load dpapi platform succeeds
                (enroll input reply answers file).1).0
              ≡ ok c')
            × (unsealed c' ≡ unsealed c))
  unfolding enroll save_new new_config defaults or_one
  enroll-load laws input reply answers file public private enrolled c keys registered server key
        device token made =
      let fresh = new_config input public private enrolled in
      let same : enroll input reply answers file ≡ save_new answers file fresh =
        ap (enroll_keys input reply answers file) keys
        ∙ ap (enroll_with input answers file (public, private)) registered in
      let made' = sym (ap (λ (x : Result Config × Slot Config). x.0) same) ∙ made in
      let h : Holder = record { config = defaults fresh; file = file } in
      let (saved, held, _) = returned_ok _ _ c made' in
      let identity = held-SameIdentity dpapi platform answers h (λ e. omega (arith, e)) in
      let there : IsEnrolled (defaults fresh) = record {
        server_url = server;
        device_id = device;
        private_key = key;
        otlp_token = token;
      } in
      let (c', loaded, agree) = saved-loads laws answers file fresh c there made' in
      (
        sym (ap (λ (x : Config). x.device_id) held) ∙ identity.device_id,
        sym (ap (λ (x : Config). x.next_sequence) held) ∙ identity.next_sequence,
        (
          c',
          ap (λ (x : Result Config × Slot Config). (Config.load dpapi platform succeeds x.1).0) same
              ∙ loaded,
          agree,
        ),
      )

check_refuses : (c : Config) → c.device_id ≡ "" → check_complete c ≡ err incomplete
unfolding check_complete
check_refuses c e = elim (Bool-cases (is_empty c.server_url)) [
  | inl f ↦ rw f refl
  | inr f ↦ simp (f, e) refl
]

module _ (dpapi : Dpapi) where
  opened_alone : (plain : String) → opened dpapi unix plain "" ≡ ok plain
  unfolding opened
  opened_alone plain = elim (Bool-cases (is_empty plain)) [ inl e ↦ rw e refl | inr e ↦ rw e refl ]

  refused :
      (s : Slot Config) (c : Config)
      → s.target ≡ json (disk_unix c)
      → c.device_id ≡ ""
      → (Config.load dpapi unix succeeds s).0 ≡ err incomplete
  unfolding Config.load Config.parse
  refused s c there e =
      simp (there, opened_alone c.private_key, opened_alone c.otlp_token)
        (check_refuses (defaults (disk_unix c)) (unfold defaults in e))

  -- Off Windows, if the server's answer to a registration has an empty device and `Enroll` returned
  -- no error, a load that can read the file which it left refuses this as incomplete.
  pub load_refuses :
      (input : EnrollInput) (reply : RegisterReply) (answers : Io) (file : Slot Config)
      (public private : String) (enrolled : EnrollResponse) (c : Config)
      → input.keys ≡ some (public, private)
      → register reply ≡ ok enrolled
      → enrolled.device_id ≡ ""
      → (enroll unix dpapi input reply answers file).0 ≡ ok c
      → (Config.load dpapi unix succeeds (enroll unix dpapi input reply answers file).1).0
        ≡ err incomplete
  unfolding enroll save_new new_config defaults disk_form
  load_refuses input reply answers file public private enrolled c keys registered device made =
      let fresh = new_config input public private enrolled in
      let same : enroll unix dpapi input reply answers file
          ≡ save_new unix dpapi answers file fresh =
        ap (enroll_keys unix dpapi input reply answers file) keys
        ∙ ap (enroll_with unix dpapi input answers file (public, private)) registered in
      let made' = sym (ap (λ (x : Result Config × Slot Config). x.0) same) ∙ made in
      let h : Holder = record { config = defaults fresh; file = file } in
      let (saved, held, at) = returned_ok unix dpapi _ _ c made' in
      let (d, form, there, _) = save_ok dpapi unix answers h saved in
      ap (λ (x : Result Config × Slot Config). (Config.load dpapi unix succeeds x.1).0) same
      ∙ ap (λ (f : Slot Config). (Config.load dpapi unix succeeds f).0) at
      ∙ refused (Config.save dpapi unix answers h).1.file (defaults h.config)
          (there ∙ ap json (sym (ok-injective form))) device
