-- ===== src/Common/Disk.antt =====
-- The file system as the program sees it through Go's `os`: reads, writes of a whole file,
-- renames and removals. What the environment does to each call is a list of faults, one for each
-- call; behind its end all goes well. The theorems about crashes hold for every such list.
pub mod Laws
pub mod Keeps
use Prim.Native.Nat.{bit_and}
use localhoist.Common.{
  ℕ, ◌-◌, Bool, true, false, Option, none, some, List, [], ◌∷◌, Bytes, equal, take, if◌then◌else◌,
}

-- A file: its bytes and its permission bits.
pub record Entry : Type 0 where
  pub content : Bytes
  pub mode : ℕ

abbrev pub Tree : Type 0
Tree = Bytes → Option Entry

pub data Fault : Type 0 where
  -- The call does its work.
  fine : Fault
  -- The call fails and changes nothing.
  refused : Fault
  -- A write fails behind its first bytes; any other call fails and changes nothing.
  torn : ℕ → Fault
  -- The process is killed before the call does anything.
  killed : Fault
  -- The process is killed within a write, behind its first bytes.
  killed_within : ℕ → Fault

pub record World : Type 0 where
  pub tree : Tree
  pub faults : List Fault
  pub umask : ℕ

-- The errors that the program tells apart; a constructor stands for a message and its arguments.
pub data Error : Type 0 where
  not_exist : Bytes → Error
  io : Bytes → Error
  corrupt_state : Bytes → Error
  bad_json : Bytes → Error
  not_string : Bytes → Error
  unknown_transport : Bytes → Error
  unknown_key : Bytes → Error
  static_domain : Bytes → Error
  no_directory : Bytes → Error
  no_artisan : Bytes → Error
  cannot_read : Bytes → Error
  bad_url : Bytes → Error
  in_file : Bytes → Error → Error
  restoring : Error → Error
  bad_flag : Bytes → Error
  cannot_listen : Error
  no_tunnel : Bytes → Error
  tunnel_exited : Bytes → Error
  usage : Bytes → Error
  unknown_command : Bytes → Error
  -- Not an error value of Go but a panic: an assignment to an entry of a nil map. It takes the way
  -- of an error through the calls, the deferred calls run, and no handler takes it.
  nil_map : Bytes → Error

abbrev pub is_panic : Error → Bool
is_panic (nil_map path) = true
is_panic _ = false

pub data Outcome {ℓ} (A : Type ℓ) : Type ℓ where
  ok : A → Outcome A
  err : Error → Outcome A
  -- The process was killed: nothing runs behind it.
  dead : Outcome A

abbrev pub M : Type 0 → Type 0
M A = World → Outcome A × World

abbrev pub continue : {A B : Type 0} → Outcome A × World → (A → M B) → Outcome B × World
continue (ok a, w) f = f a w
continue (err e, w) f = (err e, w)
continue (dead, w) f = (dead, w)

infixl 5 ◌>>=◌
abbrev pub ◌>>=◌ : {A B : Type 0} → M A → (A → M B) → M B
◌>>=◌ first then_ w = continue (first w) then_

infixl 5 ◌>>◌
abbrev pub ◌>>◌ : {A B : Type 0} → M A → M B → M B
first >> next = first >>= λ _. next

abbrev pub pure : {A : Type 0} → A → M A
pure a w = (ok a, w)

abbrev pub fail : {A : Type 0} → Error → M A
fail e w = (err e, w)

-- Go's `if err != nil`: both results of a call are handled.
abbrev pub settle :
    {A B : Type 0} → Outcome A × World → (A → M B) → (Error → M B) → Outcome B × World
settle (ok a, w) good bad = good a w
settle (err e, w) good bad = bad e w
settle (dead, w) good bad = (dead, w)

abbrev pub attempt : {A B : Type 0} → M A → (A → M B) → (Error → M B) → M B
attempt m good bad w = settle (m w) good bad

abbrev pub update : Tree → Bytes → Option Entry → Tree
update t path e q = if equal q path then e else t q

-- Takes the fault of one call off the list.
pub next_fault : List Fault → Fault
next_fault [] = fine
next_fault (f ∷ fs) = f

pub later_faults : List Fault → List Fault
later_faults [] = []
later_faults (f ∷ fs) = fs

abbrev pub spend : World → Tree → World
spend w t = record w { tree = t; faults = later_faults w.faults }

-- A call that changes nothing but by its own work, which `work` gives.
abbrev pub call : {A : Type 0} → Fault → Bytes → World → Outcome A × Tree → Outcome A × World
call fine path w done = (done.0, spend w done.1)
call refused path w done = (err (io path), spend w w.tree)
call (torn n) path w done = (err (io path), spend w w.tree)
call killed path w done = (dead, spend w w.tree)
call (killed_within n) path w done = (dead, spend w w.tree)

abbrev pub found : Bytes → Option Entry → Outcome Entry
found path none = err (not_exist path)
found path (some e) = ok e

-- `os.Stat`, with the bytes for `os.ReadFile`
unfoldable pub stat : Bytes → M Entry
unfolding next_fault later_faults
stat path w = call (next_fault w.faults) path w (found path (w.tree path), w.tree)

unfoldable pub read_file : Bytes → M Bytes
unfolding stat
read_file path = do e ← stat path; pure e.content

-- The bits that a new file gets: those that the umask lets through.
abbrev pub created : World → ℕ → ℕ
created w perm = perm - bit_and perm w.umask

abbrev pub mode_for : World → ℕ → Option Entry → ℕ
mode_for w perm none = created w perm
mode_for w perm (some e) = e.mode

abbrev pub put : World → Bytes → Bytes → ℕ → Tree
put w path content perm =
    update w.tree path (some (record { content = content; mode = mode_for w perm (w.tree path) }))

abbrev pub write_under : Fault → Bytes → Bytes → ℕ → M (Unit {0})
write_under fine path content perm w = (ok tt, spend w (put w path content perm))
write_under refused path content perm w = (err (io path), spend w w.tree)
write_under (torn n) path content perm w =
    (err (io path), spend w (put w path (take n content) perm))
write_under killed path content perm w = (dead, spend w w.tree)
write_under (killed_within n) path content perm w =
    (dead, spend w (put w path (take n content) perm))

-- `os.WriteFile`: it truncates a file that is there and keeps its bits, or makes a new one.
unfoldable pub write_file : Bytes → Bytes → ℕ → M (Unit {0})
unfolding next_fault later_faults
write_file path content perm w = write_under (next_fault w.faults) path content perm w

abbrev pub moved : Bytes → Bytes → Tree → Option Entry → Outcome (Unit {0}) × Tree
moved from to t none = (err (not_exist from), t)
moved from to t (some e) = (ok tt, update (update t from none) to (some e))

-- `os.Rename`, which is atomic.
unfoldable pub rename : Bytes → Bytes → M (Unit {0})
unfolding next_fault later_faults
rename from to w = call (next_fault w.faults) from w (moved from to w.tree (w.tree from))

abbrev pub removed : Bytes → Tree → Option Entry → Outcome (Unit {0}) × Tree
removed path t none = (err (not_exist path), t)
removed path t (some e) = (ok tt, update t path none)

-- `os.Remove`
unfoldable pub remove : Bytes → M (Unit {0})
unfolding next_fault later_faults
remove path w = call (next_fault w.faults) path w (removed path w.tree (w.tree path))

-- `os.MkdirAll`. Directories are not in the tree: the call only may fail.
unfoldable pub make_dirs : Bytes → M (Unit {0})
unfolding next_fault later_faults
make_dirs path w = call (next_fault w.faults) path w (ok tt, w.tree)
