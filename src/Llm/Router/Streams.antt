-- ===== src/Llm/Router/Streams.antt =====
-- `ChainRouter.stream` of backend/app/infrastructure/llm/router.py: the chunks that the generator yields
-- before it ends. A consumer that abandons the generator is not modelled.
use gd_classroom.Prelude.{
  ℕ, suc, ◌+◌, ◌-◌, true, false, List, [], ◌∷◌, Option, none, some, length, map, if◌then◌else◌, ltb,
  leb, is_nonempty,
}
use gd_classroom.Llm.Quota.{TierSpec, note_attempt}
use gd_classroom.Llm.Failures.{Python, Fault}
use gd_classroom.Llm.Monitor.{Detail}
use gd_classroom.Llm.Router.{
  Usage, Config, Books, ChainExhausted, Cause, timed_out, record_usage, eligible_rungs, skip_rung,
  is_hunt_over, handle_failure, handle_success, exhaust,
}

-- A chunk, how long the rung takes for it, and how long the consumer then holds the generator.
pub record Piece (A : Type 0) : Type 0 where
  pub chunk : A
  pub wait : ℕ
  pub held : ℕ

-- What a rung streams: how the iterator ends (none where it is exhausted) and after which wait.
pub record Feed (A : Type 0) : Type 0 where
  pub pieces : List (Piece A)
  pub ending : Option Fault
  pub last_wait : ℕ
  pub usage : Usage

-- The exceptions that the router raises with a text of the rung: past the deadline, and for a stream
-- without content.
pub record Raises : Type 0 where
  pub exceeded : TierSpec → Fault
  pub no_content : TierSpec → Fault

-- What the loop over the iterator makes of a feed.
pub record Heard (A : Type 0) : Type 0 where
  pub chunks : List A
  pub finished : ℕ
  pub fault : Option Fault

pub data Broken : Type 0 where
  exhausted : ChainExhausted → Broken
  cut_off : Fault → Broken

pub record Stream (A : Type 0) : Type 0 where
  pub books : Books
  pub ended : ℕ
  pub calls : List ℕ
  -- Each chunk with the name of its tier.
  pub chunks : List (A × ℕ)
  -- None where the generator returns.
  pub raised : Option Broken

module _ {A : Type 0} (exceeded : Fault) (deadline : ℕ) where
  -- The loop `while True`: a wait is cut off at the deadline.
  unfoldable pub receive : ℕ → List (Piece A) → Option Fault → ℕ → Heard A
  receive now [] ending last_wait =
      if leb deadline now
      then record { chunks = []; finished = now; fault = some exceeded }
      else if ltb (deadline - now) last_wait
      then record { chunks = []; finished = deadline; fault = some timed_out }
      else record { chunks = []; finished = now + last_wait; fault = ending }
  receive now (p ∷ ps) ending last_wait =
      let rest = receive (now + p.wait + p.held) ps ending last_wait in
      if leb deadline now
      then record { chunks = []; finished = now; fault = some exceeded }
      else if ltb (deadline - now) p.wait
      then record { chunks = []; finished = deadline; fault = some timed_out }
      else record rest { chunks = p.chunk ∷ rest.chunks }

-- An iterator that ends without a chunk is a failure too.
abbrev pub fault_of : {A : Type 0} → Fault → Heard A → Option Fault
fault_of silence heard = elim heard.fault [
  | some exc ↦ some exc
  | none ↦ if is_nonempty heard.chunks then none else some silence
]

-- The chunks with the name of their tier.
abbrev pub voiced : {A : Type 0} → ℕ → List A → List (A × ℕ)
voiced tier chunks = map (λ chunk. (chunk, tier)) chunks

module _ (py : Python) (config : Config) (raises : Raises) where
  module _ {A : Type 0} (call : TierSpec → ℕ → Feed A) (purpose : ℕ) where
    abbrev pub heard : TierSpec → ℕ → Heard A
    unfolding receive
    heard spec now =
        let feed = call spec now in
        receive (raises.exceeded spec) (now + spec.hard_timeout) now feed.pieces feed.ending
          feed.last_wait

    -- The books when the exception is caught, or the loop left.
    abbrev pub after_stream : TierSpec → ℕ → Books → Books
    after_stream spec now b =
        record_usage spec (call spec now).usage (heard spec now).finished
          (record b { ledger = note_attempt spec now b.ledger })

    -- The loop of `stream`, as that of `_walk`.
    unfoldable pub stream_rungs : ℕ → ℕ → ℕ → Detail → List TierSpec → ℕ → Books → Stream A
    stream_rungs started total failures detail [] now b = record {
      books = exhaust py config purpose detail now b;
      ended = now;
      calls = [];
      chunks = [];
      raised =
          some (
            Broken.exhausted (record { purpose = purpose; cause = Cause.all_failed total detail }));
    }
    stream_rungs started total failures detail (spec ∷ rest) now b =
        elim (is_hunt_over py config spec failures started now) [
          | true ↦
              stream_rungs started total failures detail rest now
                (skip_rung py config now purpose spec Detail.budget_spent b)
          | false ↦
              let got = heard spec now in
              let b' = after_stream spec now b in
              elim (fault_of (raises.no_content spec) got) [
                | none ↦ record {
                  books = handle_success py config spec purpose failures got.finished b';
                  ended = got.finished;
                  calls = spec.name ∷ [];
                  chunks = voiced spec.name got.chunks;
                  raised = none;
                }
                | some exc ↦
                    let (b'', why) =
                      handle_failure py config spec exc purpose rest got.finished b' in
                    elim (is_nonempty got.chunks) [
                      | true ↦ record {
                        books = b'';
                        ended = got.finished;
                        calls = spec.name ∷ [];
                        chunks = voiced spec.name got.chunks;
                        raised = some (Broken.cut_off exc);
                      }
                      | false ↦
                          let stream =
                            stream_rungs started total (suc failures) why rest got.finished b'' in
                          record stream { calls = spec.name ∷ stream.calls }
                    ]
              ]
        ]

    unfoldable pub stream_eligible : List TierSpec → ℕ → Books → Stream A
    stream_eligible [] now b = record {
      books = exhaust py config purpose Detail.no_eligible now b;
      ended = now;
      calls = [];
      chunks = [];
      raised = some (Broken.exhausted (record { purpose = purpose; cause = Cause.every_benched }));
    }
    stream_eligible (spec ∷ specs) now b =
        stream_rungs now (length (spec ∷ specs)) 0 Detail.unreached (spec ∷ specs) now b

    unfoldable pub stream : ℕ → Books → Stream A
    stream now b =
        let (b', specs) = eligible_rungs py config now purpose config.chain b in
        stream_eligible specs now b'
