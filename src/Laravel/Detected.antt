-- ===== src/Laravel/Detected.antt =====
-- What `Detect` has read of `.env`.
use localhoist.Common.{
  ◌≡◌, refl, sym, ap, Option, none, some, Bytes, ◌++◌, codes, Bool-cases, inl, inr,
}
use localhoist.Common.Disk.{Outcome, ok, err, dead}
use localhoist.Common.Http.{Url}
use localhoist.EnvFile.{File, parse}
use localhoist.Laravel.{Outside, Project, detect, project_at, with_env}

project_at-env :
    (o : Outside) (dir : Bytes) (env : File) (r : Outcome Url) {p : Project}
    → project_at o dir env r ≡ ok p
    → p.env ≡ env
project_at-env o dir env (ok app) h = ap env_in (sym h)
  where
    env_in : Outcome Project → File
    env_in (ok p) = p.env
    env_in _ = env
project_at-env o dir env (err e) h = cc
project_at-env o dir env dead h = cc

with_env-env :
    (o : Outside) (dir : Bytes) (content : Option Bytes) {p : Project}
    → with_env o dir content ≡ ok p
    → (c : Bytes) × (content ≡ some c)
      × (p.env ≡ record { path = dir ++ codes "/.env"; lines = parse c })
with_env-env o dir none h = cc
with_env-env o dir (some c) h = (c, refl, project_at-env o dir _ _ h)

-- A project that was found has the lines of its `.env`, under the path that `run` uses too.
pub detect-env :
    (o : Outside) (dir : Bytes) {p : Project}
    → detect o dir ≡ ok p
    → (c : Bytes) × (o.files (dir ++ codes "/.env") ≡ some c)
      × (p.env ≡ record { path = dir ++ codes "/.env"; lines = parse c })
unfolding detect
detect-env o dir h = elim (Bool-cases (o.no_abs dir)) [
  | inl lost ↦ let k = rw lost at h in cc
  | inr absolute ↦ elim (Bool-cases (o.exists (dir ++ codes "/artisan"))) [
    | inl here ↦ with_env-env o dir (o.files (dir ++ codes "/.env")) (rw (absolute, here) at h)
    | inr gone ↦ let k = rw (absolute, gone) at h in cc
  ]
]
