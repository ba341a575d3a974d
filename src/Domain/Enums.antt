-- ===== src/Domain/Enums.antt =====
-- The enumerations of backend/app/domain/enums.py that the other parts read.
pub data ClassroomStatus : Type 0 where
  draft inviting ready live completed cancelled expired : ClassroomStatus

pub data InvitationStatus : Type 0 where
  pending accepted rejected expired revoked : InvitationStatus

pub data SessionStatus : Type 0 where
  pending connecting active summarizing ended aborted : SessionStatus

pub data EndReason : Type 0 where
  completed time_limit host_ended not_enough_participants nobody_spoke join_timeout fatal_error :
      EndReason

pub data ModeratorState : Type 0 where
  idle introducing explaining_rules selecting_speaker questioning listening evaluating
        following_up :
      ModeratorState
  closing summarizing done : ModeratorState

pub data TurnKind : Type 0 where
  intro rules question follow_up answer nudge closing : TurnKind

pub data SummaryStatus : Type 0 where
  pending ready failed : SummaryStatus

pub data Gender : Type 0 where
  male female unspecified : Gender

pub data ParticipantConnection : Type 0 where
  invited connecting connected disconnected left removed : ParticipantConnection

-- `is` on members of an enumeration.
unfoldable pub ClassroomStatus-discrete : Discrete ClassroomStatus
ClassroomStatus-discrete = hlevel

unfoldable pub SessionStatus-discrete : Discrete SessionStatus
SessionStatus-discrete = hlevel

pub data Role : Type 0 where
  super_user participant : Role

unfoldable pub InvitationStatus-discrete : Discrete InvitationStatus
InvitationStatus-discrete = hlevel
