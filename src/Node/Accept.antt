-- ===== src/Node/Accept.antt =====
-- The connections that a node accepts (src/node/server.rs): the count of the pool and the tasks
-- that change it. The loop compares the count with the cap and starts a task; the task adds one to
-- the count, does the handshake, and takes one off; the messages of the connection are handled in
-- a task of their own, which does not touch the count.
pub mod Reached
use dsearch.Base.{
  ℕ, suc, ◌+◌, ◌-◌, ◌<◌, ◌≤◌, ◌≡◌, leb, ltb, Bool, not, Result, ok, err, Text, codes, if◌then◌else◌,
}

abbrev pub default_max_connections : ℕ
default_max_connections = 200

-- The count, and how many tasks stand before it is raised, in the handshake, in the loop over
-- messages, and how many have panicked in the handshake.
pub record Pool : Type 0 where
  pub active_connections : ℕ
  pub spawned : ℕ
  pub shaking : ℕ
  pub talking : ℕ
  pub panicked : ℕ

abbrev pub empty_pool : Pool
empty_pool = record { active_connections = 0; spawned = 0; shaking = 0; talking = 0; panicked = 0 }

abbrev pub spawn_task : Pool → Pool
spawn_task p = record p { spawned = suc p.spawned }

-- `fetch_add` of a task.
abbrev pub begin_handshake : ℕ → Pool → Pool
begin_handshake spawned p = record p {
  active_connections = p.active_connections + 1;
  spawned = spawned;
  shaking = suc p.shaking;
}

-- The handshake succeeds: the messages get their own task, and then comes `fetch_sub`.
abbrev pub end_handshake : ℕ → Pool → Pool
end_handshake shaking p = record p {
  active_connections = p.active_connections - 1;
  shaking = shaking;
  talking = suc p.talking;
}

-- The handshake fails, and `fetch_sub` follows.
abbrev pub fail_handshake : ℕ → Pool → Pool
fail_handshake shaking p = record p {
  active_connections = p.active_connections - 1;
  shaking = shaking;
}

-- A task that panics does not come to `fetch_sub`.
abbrev pub panic_handshake : ℕ → Pool → Pool
panic_handshake shaking p = record p { shaking = shaking; panicked = suc p.panicked }

abbrev pub end_messages : ℕ → Pool → Pool
end_messages talking p = record p { talking = talking }

-- The steps of the loop and of its tasks, under a cap.
pub data Step (max_connections : ℕ) : Pool → Pool → Type 0 where
  accepts :
      (p : Pool) → p.active_connections < max_connections → Step max_connections p (spawn_task p)
  begins : (p : Pool) (n : ℕ) → p.spawned ≡ suc n → Step max_connections p (begin_handshake n p)
  succeeds : (p : Pool) (n : ℕ) → p.shaking ≡ suc n → Step max_connections p (end_handshake n p)
  fails : (p : Pool) (n : ℕ) → p.shaking ≡ suc n → Step max_connections p (fail_handshake n p)
  panics : (p : Pool) (n : ℕ) → p.shaking ≡ suc n → Step max_connections p (panic_handshake n p)
  hangs_up : (p : Pool) (n : ℕ) → p.talking ≡ suc n → Step max_connections p (end_messages n p)

-- Some steps, one after the other.
pub data Steps (max_connections : ℕ) (p : Pool) : Pool → Type 0 where
  none_yet : Steps max_connections p p
  after :
      (q r : Pool)
      → Steps max_connections p q
      → Step max_connections q r
      → Steps max_connections p r
