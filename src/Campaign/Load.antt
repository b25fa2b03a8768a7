-- ===== src/Campaign/Load.antt =====
-- fuzzer/src/main.rs: the corpus of a client before it fuzzes. Parameters: the methods of the crate
-- libafl, each of which returns a value or an `Err` and changes the state of the client.
use exim_fuzzer.Base.{
  ℕ, ◌<◌, ◌≡◌, ap, subst, Bool, true, Option, none, some, List, [], ◌∷◌, ◌==◌, length, arith,
  if◌then◌else◌,
}
use exim_fuzzer.Campaign.{Input}
use exim_fuzzer.Input.{parse_txt, parse_loop, parse_rest}
use exim_fuzzer.Io.{Io, Reply, Result, done, pure, panic, call, ◌>>=◌}
use exim_fuzzer.Io.Laws.{
  Yields, Yields-bind, Yields-call, Yields-if, Yields-pure, IsSafe, IsSafe-pure, IsSafe-call,
  IsSafe-if, IsSafe-bind,
}
use exim_fuzzer.Token.Deserialize.{stream_packet}

module _ {Client FilePath : Type 0} (corpus : Client → List Input)
    (load_initial_inputs_multicore : List FilePath → Reply Client (Unit {0}))
    (add_input : Input → Reply Client ℕ) where
  -- `state.corpus().count()`
  unfoldable pub count : Io Client ℕ
  count client = (done (length (corpus client)), client)

  -- The inputs of the directory that the user names, if any.
  unfoldable pub load_given : Option FilePath → Io Client (Unit {0})
  load_given none = pure tt
  load_given (some path) = call (load_initial_inputs_multicore (path ∷ []))

  -- The `unwrap` of `parse_txt(b"")`: two ways to panic.
  unfoldable pub unwrap_parsed : Option (Option Input) → Io Client Input
  unwrap_parsed none = panic
  unwrap_parsed (some none) = panic
  unwrap_parsed (some (some input)) = pure input

  unfoldable pub add_empty : Io Client (Unit {0})
  unfolding unwrap_parsed
  add_empty = do
    empty ← unwrap_parsed (parse_txt stream_packet [])
    id ← call (add_input empty)
    pure tt

  -- `must_load` is the answer of `state.must_load_initial_inputs()`, `queue` the directory of the output.
  unfoldable pub load_inputs : Bool → Option FilePath → FilePath → Io Client (Unit {0})
  unfolding count load_given add_empty
  load_inputs must_load given queue =
      if must_load
      then (do
        _ ← load_given given
        _ ← call (load_initial_inputs_multicore (queue ∷ []))
        n ← count
        if n == 0 then add_empty else pure tt)
      else pure tt

  -- `add_input` adds the input, if it returns.
  module _
      (adds : (input : Input) (client client' : Client) (id : ℕ)
        → add_input input client ≡ (some id, client')
        → corpus client' ≡ input ∷ corpus client) where
    add_empty_fills :
        (client : Client) → Yields (λ _ client'. 0 < length (corpus client')) add_empty client
    unfolding add_empty unwrap_parsed parse_txt parse_loop parse_rest
    add_empty_fills client = Yields-bind (pure []) λ empty c e.
        Yields-call (add_input empty)
          λ id c' added. Yields-pure _ (omega (arith, ap length (adds empty c c' id added)))

    counts :
        (client : Client) (n : ℕ) (client' : Client)
        → ◌≡◌ {A = Result ℕ × Client} (done (length (corpus client)), client) (done n, client')
        → (length (corpus client) ≡ n) × (client ≡ client')
    counts client n client' e = (cc, cc)

    count_fills :
        (client : Client)
        → Yields
            (λ _ client'. 0 < length (corpus client'))
            (count >>= λ n. if n == 0 then add_empty else pure tt)
            client
    unfolding count
    count_fills client = Yields-bind count λ n c e.
        Yields-if (n == 0) (λ _. add_empty_fills c)
          λ some_input.
            let (counted, same) = counts client n c e in
            let filled : 0 < length (corpus client) = ground (arith, counted) in
            Yields-pure _ (subst (λ x. 0 < length (corpus x)) same filled)

    fills :
        (given : Option FilePath) (queue : FilePath) (client : Client)
        → Yields (λ _ client'. 0 < length (corpus client')) (load_inputs true given queue) client
    unfolding load_inputs
    fills given queue client =
        Yields-bind (load_given given)
          λ _ c _. Yields-call (load_initial_inputs_multicore (queue ∷ [])) λ _ c' _. count_fills c'

    load_given-IsSafe : (given : Option FilePath) → IsSafe (load_given given)
    unfolding load_given
    load_given-IsSafe none = IsSafe-pure tt
    load_given-IsSafe (some path) = IsSafe-call _

    add_empty-IsSafe : IsSafe add_empty
    unfolding add_empty unwrap_parsed parse_txt parse_loop parse_rest
    add_empty-IsSafe =
        IsSafe-bind (IsSafe-pure [])
          λ empty. IsSafe-bind (IsSafe-call (add_input empty)) λ _. IsSafe-pure tt

    count-IsSafe : IsSafe count
    unfolding count
    count-IsSafe = record { at = λ client. tt }

    loads_safely :
        (given : Option FilePath) (queue : FilePath) (must_load : Bool)
        → IsSafe (load_inputs must_load given queue)
    unfolding load_inputs
    loads_safely given queue must_load =
        IsSafe-if must_load
          (λ _. IsSafe-bind (load_given-IsSafe given) λ _.
            IsSafe-bind (IsSafe-call (load_initial_inputs_multicore (queue ∷ []))) λ _.
              IsSafe-bind count-IsSafe
                λ n. IsSafe-if (n == 0) (λ _. add_empty-IsSafe) λ _. IsSafe-pure tt)
          λ _. IsSafe-pure tt

    -- Where `add_input` adds the input to the corpus whenever it returns an id: a client that must load the
    -- initial inputs has, from every state, an input in its corpus if the loading returns, whatever the
    -- two directories have; and the loading never panics, whether the inputs must be loaded or not.
    pub load_inputs_lem :
        (given : Option FilePath) (queue : FilePath)
        → (client : Client) (must_load : Bool)
        → Yields (λ _ client'. 0 < length (corpus client')) (load_inputs true given queue) client
          × IsSafe (load_inputs must_load given queue)
    load_inputs_lem given queue client must_load =
        (fills given queue client, loads_safely given queue must_load)
