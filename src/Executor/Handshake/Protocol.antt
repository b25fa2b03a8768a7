-- ===== src/Executor/Handshake/Protocol.antt =====
-- The protocol of the handshake, as the messages that go to and fro, against the code.
use Prim.Native.Nat.{bit_and, bit_xor}
use exim_fuzzer.Base.{
  ℕ, ◌-◌, ◌≤◌, ◌≡◌, ◌≢◌, ◌∙◌, subst, true, false, not, Option, none, some, Bytes, ◌==◌, arith, ◌↔◌,
}
use exim_fuzzer.Io.{done}
use exim_fuzzer.Io.Laws.{
  Yields, Yields-bind, Yields-call, Yields-if, Yields-pure, Yields-guard, Yields-sub, bind-step,
  call-step, sub-step, pure-step,
}
use exim_fuzzer.Executor.Server.{Forkserver, i32_lt, i32_as_usize}
use exim_fuzzer.Executor.Handshake.{
  fs_new_error, is_version, read_map_size, skip_dictionary, do_forkserver_handshake,
}

-- The one version word that is supported: "AFL", and version 1. The answer is its complement.
abbrev pub version_1 : ℕ
version_1 = 0x41464c01

abbrev pub complement : ℕ
complement = 0xbeb9b3fe

pub supported_word : (v : ℕ) → 0x41464c00 ≤ v → not (v - 0x41464c00 == 1) ≡ false → v ≡ version_1
supported_word v h e = ground arith

same_word : (a b : ℕ) → not (a == b) ≡ false → a ≡ b
same_word a b e = ground arith

module _ (server : Forkserver) where
  open server use {State, read_st, read_st_of_len, write_ctl}

  -- With the option, the size of the coverage map follows.
  pub data MapSize (status : ℕ) (s : State) : Option ℕ → State → Type 0 where
    size_sent :
        bit_and status 1 ≡ 1
        → (size : ℕ) (s' : State) → read_st s ≡ (some size, s')
        → MapSize status s (some (i32_as_usize size)) s'
    no_size : bit_and status 1 ≢ 1 → MapSize status s none s

  -- With the option, a dictionary follows: its size, and as many bytes.
  pub data Dictionary (status : ℕ) (s : State) : State → Type 0 where
    dictionary_sent :
        bit_and status 0x800 ≢ 0
        → (size : ℕ) (s1 : State) → read_st s ≡ (some size, s1)
        → (bytes : Bytes) (s' : State) → read_st_of_len (i32_as_usize size) s1 ≡ (done bytes, s')
        → Dictionary status s s'
    no_dictionary : bit_and status 0x800 ≡ 0 → Dictionary status s s

  pub record Handshake (s : State) (map_size : Option ℕ) (s' : State) : Type 0 where
    pub greeted : State
    pub greeting : read_st s ≡ (some version_1, greeted)
    pub acknowledged : State
    pub acknowledgement : write_ctl complement greeted ≡ (some tt, acknowledged)
    pub status : ℕ
    pub told : State
    pub options : read_st acknowledged ≡ (some status, told)
    pub mapped : State
    pub size : MapSize status told map_size mapped
    pub skipped : State
    pub dictionary : Dictionary status mapped skipped
    pub parting : read_st skipped ≡ (some version_1, s')

  pub read_map_size-MapSize :
      (status : ℕ) (s : State) → Yields (MapSize status s) (read_map_size server status) s
  unfolding read_map_size
  read_map_size-MapSize status s =
      Yields-if (bit_and status 1 == 1)
        (λ t. Yields-call read_st λ size s1 h. Yields-pure _ (size_sent (ground arith) size s1 h))
        λ t. Yields-pure _ (no_size λ one. ground arith)

  skip_dictionary-Dictionary :
      (status : ℕ) (s : State) → Yields (λ _. Dictionary status s) (skip_dictionary server status) s
  unfolding skip_dictionary
  skip_dictionary-Dictionary status s =
      Yields-if (not (bit_and status 0x800 == 0))
        (λ t. Yields-call read_st λ size s1 h.
          Yields-bind (read_st_of_len (i32_as_usize size)) λ bytes s2 h2.
            Yields-pure _ (dictionary_sent (λ zero. ground arith) size s1 h bytes s2 h2))
        λ t. Yields-pure _ (no_dictionary (ground arith))

  pub MapSize-read_map_size :
      (status : ℕ) {s s' : State} {m : Option ℕ}
      → MapSize status s m s'
      → read_map_size server status s ≡ (done m, s')
  unfolding read_map_size
  MapSize-read_map_size status (size_sent t size s' h) =
      let f : (bit_and status 1 == 1) ≡ true = ground arith in rw f (call-step _ _ h pure-step)
  MapSize-read_map_size status (no_size t) =
      let f : (bit_and status 1 == 1) ≡ false = ground arith in rw f pure-step

  Dictionary-skip_dictionary :
      (status : ℕ) {s s' : State}
      → Dictionary status s s'
      → skip_dictionary server status s ≡ (done tt, s')
  unfolding skip_dictionary
  Dictionary-skip_dictionary status (dictionary_sent t size s1 h bytes s' h2) =
      let f : (bit_and status 0x800 == 0) ≡ false = ground arith in
      rw f (call-step _ _ h (bind-step _ _ h2 pure-step))
  Dictionary-skip_dictionary status (no_dictionary t) =
      let f : (bit_and status 0x800 == 0) ≡ true = ground arith in rw f pure-step

  sound : (s : State) → Yields (Handshake s) (do_forkserver_handshake server) s
  unfolding do_forkserver_handshake
  sound s = Yields-call read_st λ v greeted greeting.
      Yields-guard (bit_and v fs_new_error == fs_new_error) _ λ _.
        Yields-guard (not (is_version v)) _ λ _. Yields-sub v 0x41464c00 _ λ le.
          Yields-guard (not (v - 0x41464c00 == 1)) _ λ one.
            let supported = supported_word v le one in
            Yields-call (write_ctl (bit_xor v 0xffffffff)) λ _ acknowledged ack.
              Yields-call read_st λ status told options.
                Yields-bind (read_map_size server status) λ m mapped size.
                  Yields-bind (skip_dictionary server status) λ _ skipped dictionary.
                    Yields-call read_st λ last parted parting.
                      Yields-guard (not (last == v)) _ λ same.
                        let again = same_word last v same ∙ supported in
                        Yields-pure _ (record {
                          greeted = greeted;
                          greeting = subst (λ w. read_st s ≡ (some w, greeted)) supported greeting;
                          acknowledged = acknowledged;
                          acknowledgement =
                              subst
                                (λ w.
                                  write_ctl (bit_xor w 0xffffffff) greeted
                                  ≡ (some tt, acknowledged))
                                supported ack;
                          status = status;
                          told = told;
                          options = options;
                          mapped = mapped;
                          size = (read_map_size-MapSize status told).at m mapped size;
                          skipped = skipped;
                          dictionary =
                              (skip_dictionary-Dictionary status mapped).at tt skipped dictionary;
                          parting = subst (λ w. read_st skipped ≡ (some w, parted)) again parting;
                        })

  complete :
      (s s' : State) (m : Option ℕ)
      → Handshake s m s'
      → do_forkserver_handshake server s ≡ (done m, s')
  unfolding do_forkserver_handshake is_version i32_lt
  complete s s' m h = call-step _ _ h.greeting (
      sub-step version_1 0x41464c00 _ (omega arith) (
        call-step _ _ h.acknowledgement (
          call-step _ _ h.options (
            bind-step _ _ (MapSize-read_map_size h.status h.size) (
              bind-step _ _ (Dictionary-skip_dictionary h.status h.dictionary)
                (call-step _ _ h.parting pure-step))))))

  -- The handshake returns exactly if the server keeps to the protocol, with the size of the map that the
  -- server sent, if it sent one: a word for version 1, to be answered with its complement; the options;
  -- the size and the dictionary that they announce; and the version word again.
  pub do_forkserver_handshake-Handshake :
      (s s' : State) (m : Option ℕ)
      → do_forkserver_handshake server s ≡ (done m, s') ↔ Handshake s m s'
  do_forkserver_handshake-Handshake s s' m = ((sound s).at m s', complete s s' m)
