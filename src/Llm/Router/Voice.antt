-- ===== src/Llm/Router/Voice.antt =====
-- Whose words a stream carries (backend/app/infrastructure/llm/router.py).
use gd_classroom.Prelude.{
  ℕ, suc, ◌≡◌, refl, inl, inr, true, List, [], ◌∷◌, Option, none, some, All, arith, is_nonempty,
  Bool-cases, Option-cases,
}
use gd_classroom.Llm.Quota.{TierSpec}
use gd_classroom.Llm.Failures.{Python, Fault}
use gd_classroom.Llm.Monitor.{Detail}
use gd_classroom.Llm.Router.{Config, Books, is_hunt_over, eligible_rungs}
use gd_classroom.Llm.Router.Streams.{
  Raises, Feed, Heard, Broken, fault_of, heard, stream_rungs, stream_eligible, stream, voiced,
}

-- How a stream may end: it returns after some chunks of one tier; it is cut off after some chunks of one
-- tier; or the chain is exhausted and there was not a word.
abbrev pub IsOneVoice : {A : Type 0} → List (A × ℕ) → Option Broken → Type 0
IsOneVoice chunks (some (Broken.exhausted e)) = chunks ≡ []
IsOneVoice {A = A} chunks _ =
    (is_nonempty chunks ≡ true) × (tier : ℕ) × All (λ (c : A × ℕ). c.1 ≡ tier) chunks

voiced-All :
    {A : Type 0} (tier : ℕ) (chunks : List A) → All (λ (c : A × ℕ). c.1 ≡ tier) (voiced tier chunks)
voiced-All tier [] = tt
voiced-All tier (c ∷ cs) = (refl, voiced-All tier cs)

voiced-is_nonempty :
    {A : Type 0} (tier : ℕ) (chunks : List A)
    → is_nonempty chunks ≡ true
    → is_nonempty (voiced tier chunks) ≡ true
voiced-is_nonempty tier [] h = h
voiced-is_nonempty tier (c ∷ cs) h = refl

-- A stream that is left without a fault has chunks.
fault_of-none :
    {A : Type 0} (silence : Fault) (got : Heard A)
    → fault_of silence got ≡ none
    → is_nonempty got.chunks ≡ true
fault_of-none silence got h = ground arith

module _ (py : Python) (config : Config) (raises : Raises) where
  module _ {A : Type 0} (call : TierSpec → ℕ → Feed A) (purpose : ℕ) where
    stream_rungs-IsOneVoice :
        (started total failures : ℕ) (detail : Detail) (specs : List TierSpec) (now : ℕ) (b : Books)
        → let s =
            stream_rungs py config raises call purpose started total failures detail specs now b in
          IsOneVoice s.chunks s.raised
    unfolding stream_rungs
    stream_rungs-IsOneVoice started total failures detail [] now b = refl
    stream_rungs-IsOneVoice started total failures detail (spec ∷ rest) now b =
        let got = heard py config raises call purpose spec now in
        elim (Bool-cases (is_hunt_over py config spec failures started now)) [
          | inl e ↦
              rw (e, stream_rungs)
                (stream_rungs-IsOneVoice started total failures detail rest now _)
          | inr e ↦ elim (Option-cases (fault_of (raises.no_content spec) got)) [
            | inl f ↦
                let said = fault_of-none (raises.no_content spec) got f in
                rw (e, f, stream_rungs)
                  (
                    voiced-is_nonempty spec.name got.chunks said,
                    spec.name,
                    voiced-All spec.name got.chunks,
                  )
            | inr (x, f) ↦ elim (Bool-cases (is_nonempty got.chunks)) [
              | inl g ↦
                  rw (e, f, g, stream_rungs)
                    (
                      voiced-is_nonempty spec.name got.chunks g,
                      spec.name,
                      voiced-All spec.name got.chunks,
                    )
              | inr g ↦
                  rw (e, f, g, stream_rungs)
                    (stream_rungs-IsOneVoice started total (suc failures) _ rest _ _)
            ]
          ]
        ]

    stream_eligible-IsOneVoice :
        (specs : List TierSpec) (now : ℕ) (b : Books)
        → let s = stream_eligible py config raises call purpose specs now b in
          IsOneVoice s.chunks s.raised
    unfolding stream_eligible
    stream_eligible-IsOneVoice [] now b = refl
    stream_eligible-IsOneVoice (spec ∷ specs) now b =
        stream_rungs-IsOneVoice now _ 0 Detail.unreached (spec ∷ specs) now b

    -- Failover ends at the first token: however the rungs fail, a stream is the words of one tier. It
    -- returns only after some chunk, it is cut off only after some chunk, and where the whole chain is
    -- exhausted nothing was said.
    pub stream-IsOneVoice :
        (now : ℕ) (b : Books)
        → let s = stream py config raises call purpose now b in IsOneVoice s.chunks s.raised
    unfolding stream
    stream-IsOneVoice now b =
        let (b', specs) = eligible_rungs py config now purpose config.chain b in
        stream_eligible-IsOneVoice specs now b'
