-- ===== src/Command/Sample.antt =====
-- A project for the tests, with its `.env`, and what a run of it meets.
use localhoist.Common.{
  ℕ, zero, suc, ◌<◌, ◌≡◌, refl, true, false, none, some, [], ◌∷◌, Bytes, codes, equal, equal_refl,
  length, take, arith, if◌then◌else◌,
}
use localhoist.Common.Text.{lacks}
use localhoist.Common.Disk.{Tree, update}
use localhoist.Common.Disk.Laws.{Holds}
use localhoist.EnvFile.State.{Codec, state_path}
use localhoist.Config.{Object, transport_key, text, object, global_path, join_path}
use localhoist.Tunnel.{up}
use localhoist.Command.Safe.{state_of, IsFaithful}
use localhoist.Command.Session.{Session}
use localhoist.Command.Run.{Flags, Surroundings, settings_path, signalled, answered}
use localhoist.Command.Run.Crash.{OneLine}
use localhoist.Command.Run.Runs.{session_at}

abbrev pub path : Bytes
path = codes "/p/.env"

abbrev pub content : Bytes
content = codes "APP_URL=http://x\nA=1\n"

abbrev pub json : Bytes
json = codes "{\"env_path\": \"/p/.env\", \"original\": {\"APP_URL\": \"http://x\"}}"

-- `encoding/json` at the one state of this run.
abbrev pub codec : Codec
codec = record {
  encode = λ st. json;
  decode = λ b. if equal b json then some (state_of path content) else none;
}

take_short : (n : ℕ) (s : Bytes) → n < length s → equal (take n s) s ≡ false
unfolding equal global_path join_path
take_short n [] h = ground arith
take_short zero (c ∷ s) h = refl
take_short (suc n) (c ∷ s) h = ground (arith, take_short n s)

pub faithful : IsFaithful path content codec
faithful = record {
  reads_back = rw (equal_refl json) refl;
  no_part = λ n h. rw (take_short n json h) refl;
}

abbrev pub disk : Tree
disk =
    update (update (λ q. none) (codes "/p/artisan") (some (record { content = []; mode = 0o644 })))
      path (some (record { content = content; mode = 0o600 }))

pub disk-path : disk path ≡ some (record { content = content; mode = 0o600 })
unfolding equal
disk-path = refl

pub here : Holds disk path content
here = (_, disk-path, refl)

pub no_sidecar : disk (state_path path) ≡ none
unfolding equal
no_sidecar = refl

abbrev pub url : Bytes
url = codes "https://t.io"

pub one_line : lacks b'\n' url ≡ true
unfolding lacks
one_line = refl

abbrev pub flags : Flags
flags = record {
  dir = codes "/p";
  transport = [];
  domain = [];
  app = [];
  no_qr = false;
  no_patch = false;
  force_patch = false;
  show_version = false;
}

-- `encoding/json` at the settings of these runs.
abbrev pub saved_settings : Object
saved_settings = (transport_key, text (codes "ngrok")) ∷ []

abbrev pub settings : localhoist.Config.Codec
settings = record {
  parse = λ b. if equal b (codes "{n}\n") then object saved_settings else object [];
  print = λ m. codes "{n}";
}

abbrev pub surroundings : Surroundings
surroundings = record {
  getenv = λ k. [];
  home = some (codes "/h");
  url_parse = λ u. some (record {
    scheme = codes "http";
    host = codes "x";
    path = [];
    raw_query = [];
    fragment = [];
  });
  decode_lock = λ b. none;
  unreadable = λ p. false;
  no_abs = λ p. false;
  listen = some 4000;
  open_tunnel = λ transport port domain. up url;
  is_tty = false;
  at_prompt = answered (codes "y\n");
  at_wait = signalled;
  states = codec;
  settings = settings;
}

pub apart : equal path (settings_path surroundings) ≡ false
unfolding equal global_path join_path
apart = refl

pub side_apart : equal (state_path path) (settings_path surroundings) ≡ false
unfolding equal global_path join_path
side_apart = refl

pub tunnel_line : OneLine surroundings
tunnel_line = λ transport domain port u e. let same : url ≡ u = cc in rw (← same) one_line

abbrev pub session : Session
session = session_at 0o022 [] disk
