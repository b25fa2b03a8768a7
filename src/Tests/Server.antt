-- ===== src/Tests/Server.antt =====
-- A fork server that sends the words of a list, and handshakes with it. The word 999 stands for
-- a wait that is over before the next word.
use exim_fuzzer.Base.{
  ℕ, ◌<◌, ◌^◌, ltb, lt→ltb, ◌≡◌, ◌↔◌, refl, Option, none, some, List, [], ◌∷◌, Bytes, replicate,
  arith, ◌==◌, if◌then◌else◌,
}
use exim_fuzzer.Executor.Server.{Forkserver, i32_from_bool}
use exim_fuzzer.Executor.Handshake.{do_forkserver_handshake}
use exim_fuzzer.Executor.Handshake.Protocol.{Handshake, do_forkserver_handshake-Handshake}
use exim_fuzzer.Executor.Handshake.Errors.{do_forkserver_handshake-refuses}
use exim_fuzzer.Executor.Target.{PacketBuffer, SharedMemory}
use exim_fuzzer.Io.{Error, done, failed, panicked}
use exim_fuzzer.Io.Laws.{Unpanicked}

pub record Words : Type 0 where
  pub inbox : List ℕ
  pub outbox : List ℕ
  pub flag : ℕ
  pub child : ℕ
  pub shared : PacketBuffer

abbrev pub sent : List ℕ → Words → Option ℕ × Words
sent [] w = (none, w)
sent (x ∷ xs) w = (
  some x,
  record { inbox = xs; outbox = w.outbox; flag = w.flag; child = w.child; shared = w.shared },
)

abbrev pub sent_timed : List ℕ → Words → Option (Option ℕ) × Words
sent_timed [] w = (none, w)
sent_timed (x ∷ xs) w = (
  some (if x == 999 then none else some x),
  record { inbox = xs; outbox = w.outbox; flag = w.flag; child = w.child; shared = w.shared },
)

pub sent-flag : (xs : List ℕ) (w : Words) → (sent xs w).1.flag ≡ w.flag
sent-flag [] w = refl
sent-flag (x ∷ xs) w = refl

pub sent_timed-flag : (xs : List ℕ) (w : Words) → (sent_timed xs w).1.flag ≡ w.flag
sent_timed-flag [] w = refl
sent_timed-flag (x ∷ xs) w = refl

pub sent_timed-child : (xs : List ℕ) (w : Words) → (sent_timed xs w).1.child ≡ w.child
sent_timed-child [] w = refl
sent_timed-child (x ∷ xs) w = refl

pub of_len-Unpanicked :
    (n : ℕ)
    → n < 2 ^ 63
    → (w : Words) → Unpanicked {A = Bytes} (if ltb n (2 ^ 63) then (done [], w) else (panicked, w))
of_len-Unpanicked n h w = rw (lt→ltb n (2 ^ 63) h) tt

abbrev pub server : Forkserver
server = record {
  State = Words;
  read_st = λ w. sent w.inbox w;
  read_st_of_len = λ n w. if ltb n (2 ^ 63) then (done [], w) else (panicked, w);
  read_st_of_len-Unpanicked = of_len-Unpanicked;
  read_st_timed = λ w. sent_timed w.inbox w;
  write_ctl = λ n w. (
    some tt,
    record {
      inbox = w.inbox;
      outbox = n ∷ w.outbox;
      flag = w.flag;
      child = w.child;
      shared = w.shared;
    },
  );
  last_run_timed_out_raw = λ w. w.flag;
  set_last_run_timed_out = λ b w. record {
    inbox = w.inbox;
    outbox = w.outbox;
    flag = i32_from_bool b;
    child = w.child;
    shared = w.shared;
  };
  child_pid = λ w. w.child;
  set_child_pid = λ p w. record {
    inbox = w.inbox;
    outbox = w.outbox;
    flag = w.flag;
    child = p;
    shared = w.shared;
  };
  reset_child_pid = λ w. record {
    inbox = w.inbox;
    outbox = w.outbox;
    flag = w.flag;
    child = 0;
    shared = w.shared;
  };
  kill = λ p w. w;
  raw-set = λ b s. refl;
  raw-read_st = λ s. sent-flag s.inbox s;
  raw-read_st_timed = λ s. sent_timed-flag s.inbox s;
  raw-write_ctl = λ n s. refl;
  raw-set_child_pid = λ p s. refl;
  raw-reset_child_pid = λ s. refl;
  raw-kill = λ p s. refl;
  child_pid-set = λ p s. refl;
  child_pid-read_st_timed = λ s. sent_timed-child s.inbox s;
  child_pid-set_last_run_timed_out = λ b s. refl;
}

abbrev pub shared_of : ℕ → PacketBuffer
shared_of room = record { cursor = 3; size = 0; bytes = replicate room 0 }

abbrev pub words : List ℕ → List ℕ → ℕ → ℕ → Words
words i o f c = record { inbox = i; outbox = o; flag = f; child = c; shared = shared_of 11 }

abbrev pub put : PacketBuffer → Words → Words
put b w = record { inbox = w.inbox; outbox = w.outbox; flag = w.flag; child = w.child; shared = b }

abbrev pub memory : SharedMemory Words
memory = record {
  read = λ w. w.shared;
  write = put;
  read-write = λ b w. refl;
  write-write = λ b b' w. refl;
}

-- Version 1, a map size of 65536, and the version again.
abbrev pub greeting : Words
greeting = words (0x41464c01 ∷ 1 ∷ 65536 ∷ 0x41464c01 ∷ []) [] 0 0

do_forkserver_handshake-Handshake_example :
    do_forkserver_handshake server greeting ≡ (done (some 65536), words [] (0xbeb9b3fe ∷ []) 0 0)
    ↔ Handshake server greeting (some 65536) (words [] (0xbeb9b3fe ∷ []) 0 0)
do_forkserver_handshake-Handshake_example =
    do_forkserver_handshake-Handshake server greeting (words [] (0xbeb9b3fe ∷ []) 0 0) (some 65536)

do_forkserver_handshake-refuses_example :
    (e : Error) × (do_forkserver_handshake server (words (7 ∷ []) [] 0 0)
      ≡ (failed e, words [] [] 0 0))
do_forkserver_handshake-refuses_example =
    do_forkserver_handshake-refuses server (words (7 ∷ []) [] 0 0) (words [] [] 0 0) 7 refl
      λ e. omega arith

-- Version 1, a dictionary, and -1 as its size.
abbrev no_size : Words
no_size = words (0x41464c01 ∷ 0x800 ∷ 0xffffffff ∷ []) [] 0 0
