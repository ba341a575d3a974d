-- ===== src/Domain/Session/Transcript.antt =====
-- What `record_turn` keeps of a discussion (backend/app/domain/session.py).
use gd_classroom.Prelude.{
  ℕ, suc, ◌+◌, ◌-◌, ◌≡◌, ap, sym, ◌∙◌, Option, List, [], ◌∷◌, ◌++◌, map, length, drop,
  append_bounded, length-append, append_bounded-drop, map-append, Text, Uuid, arith,
}
use gd_classroom.Domain.Enums.{TurnKind}
use gd_classroom.Domain.Session.{
  BufferedTurn, TurnRecord, DiscussionSession, recent_turns_kept, turn_record, record_turn,
}

-- The indices of the turns count up from `n`.
abbrev pub CountsFrom : ℕ → List BufferedTurn → Type 0
CountsFrom n [] = Unit
CountsFrom n (t ∷ ts) = (t.turn_index ≡ n) × CountsFrom (suc n) ts

-- The last `n` items of a list.
abbrev pub last_of : {A : Type 0} → ℕ → List A → List A
last_of n xs = drop (length xs - n) xs

-- The buffer numbers the turns from 1, the counter is the number of turns, and the recent turns are
-- the last four of the transcript.
pub record Recorded (buffered : List BufferedTurn) (recent_turns : List TurnRecord) (index : ℕ)
    : Type 0 where
  pub numbered : CountsFrom 1 buffered
  pub counted : index ≡ length buffered
  pub recent : recent_turns ≡ last_of recent_turns_kept (map turn_record buffered)

abbrev pub IsRecorded : DiscussionSession → Type 0
IsRecorded s = Recorded s.buffered_turns s.recent_turns s.turn_index

CountsFrom-append :
    (n : ℕ) (ts : List BufferedTurn) (t : BufferedTurn)
    → CountsFrom n ts
    → t.turn_index ≡ n + length ts
    → CountsFrom n (ts ++ t ∷ [])
CountsFrom-append n [] t h e = (omega arith, tt)
CountsFrom-append n (x ∷ ts) t h e = (h.0, CountsFrom-append (suc n) ts t h.1 (omega arith))

-- Every turn that is recorded keeps the numbering, and the recent turns the end of the transcript.
pub record_turn-IsRecorded :
    (now : ℕ) (kind : TurnKind) (text : Text) (speaker : Option Uuid) (duration_ms : ℕ)
    (s : DiscussionSession)
    → IsRecorded s
    → IsRecorded (record_turn now kind text speaker duration_ms s).0
unfolding record_turn
record_turn-IsRecorded now kind text speaker duration_ms s h =
    let turn = (record_turn now kind text speaker duration_ms s).1 in
    let turns = map turn_record s.buffered_turns in
    let size = length-append s.buffered_turns (turn ∷ []) in
    let whole : turns ++ turn_record turn ∷ [] ≡ map turn_record (s.buffered_turns ++ turn ∷ []) =
      sym (map-append turn_record s.buffered_turns (turn ∷ [])) in
    record {
      numbered = CountsFrom-append 1 s.buffered_turns turn h.numbered (omega (arith, h.counted));
      counted = omega (arith, h.counted, size);
      recent =
          ap (append_bounded recent_turns_kept (turn_record turn)) h.recent
          ∙ append_bounded-drop recent_turns_kept (turn_record turn) turns
          ∙ ap (last_of recent_turns_kept) whole;
    }
