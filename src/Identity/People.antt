-- ===== src/Identity/People.antt =====
-- `UserService` of backend/app/modules/identity/service.py: the people that a host invites.
use gd_classroom.Prelude.{
  ℕ, Bool, true, false, not, none, some, List, [], ◌∷◌, ◌++◌, map, filter_by, any_of, take,
  if◌then◌else◌, ◌==◌, is_nonempty, Text, codes, strip, text_eq,
}
use gd_classroom.Domain.Enums.{Role, Gender}
use gd_classroom.Store.{
  AppError, Action, pure, gets, modifies, or_raise, raise_if, User, Db, ◌>>=◌, ◌>>◌,
}
use gd_classroom.Store.Rows.{change_first}
use gd_classroom.Identity.Accounts.{Ciphers, fresh_id, user_by_id, active_only, by_email}

-- `s.split(sep)`: a separator opens a new part.
unfoldable pub split_on : ℕ → Text → List Text
split_on sep [] = [] ∷ []
split_on sep (c ∷ t) =
    let parts = split_on sep t in if c == sep then [] ∷ parts else onto_first c parts
  where
    onto_first : ℕ → List Text → List Text
    onto_first c [] = (c ∷ []) ∷ []
    onto_first c (p ∷ ps) = (c ∷ p) ∷ ps

abbrev pub first_part : List Text → Text
first_part [] = []
first_part (p ∷ ps) = p

abbrev pub or_else : Text → Text → Text
or_else [] t = t
or_else (c ∷ s) t = c ∷ s

abbrev pub join_words : List Text → Text
join_words [] = []
join_words (w ∷ []) = w
join_words (w ∷ v ∷ ws) = w ++ codes " " ++ join_words (v ∷ ws)

-- `local.replace("_", ".").replace("-", ".")`
abbrev pub to_dot : ℕ → ℕ
to_dot c = if c == 0x5f then 0x2e else if c == 0x2d then 0x2e else c

unfoldable pub display_name_from_email : (Text → Text) → Text → Text
unfolding split_on
display_name_from_email capitalize email =
    let local = first_part (split_on 0x40 email) in
    let words = filter_by is_nonempty (split_on 0x2e (map to_dot local)) in
    take 80
      (or_else (join_words (map capitalize words)) (or_else local (or_else email (codes "Guest"))))

module _ (c : Ciphers) (capitalize : Text → Text) (unusable_password : ℕ → Text) where
  unfoldable pub session_user : ℕ → Action Db User
  session_user user_id = do
    found ← gets (user_by_id user_id)
    or_raise (active_only found) AppError.not_found

  unfoldable pub rename : ℕ → Text → Db → Db
  unfolding strip
  rename user_id display_name db =
      let name = take 80 (strip display_name) in
      if is_nonempty name
      then record db {
        users =
            change_first (λ u. u.id == user_id) (λ u. record u { display_name = name }) db.users;
      }
      else db

  -- The invitee whom nobody knows yet.
  unfoldable pub create_invitee : Text → Action Db User
  create_invitee email = do
    id ← fresh_id
    drawn ← fresh_id
    let user : User = record {
      id = id;
      email = email;
      password_hash = unusable_password drawn;
      display_name = display_name_from_email capitalize email;
      role = Role.participant;
      gender = Gender.unspecified;
      is_active = true;
      last_seen_at = none;
      last_invited_at = none;
    }
    modifies (λ db. record db { users = db.users ++ user ∷ [] })
    pure user

  unfoldable pub resolve_one : Bool → Text → Action Db User
  resolve_one create_missing email = do
    existing ← gets (by_email c email)
    elim existing [
      | some user ↦ do raise_if (not user.is_active) AppError.conflict; pure user
      | none ↦ do raise_if (not create_missing) AppError.not_found; create_invitee email
    ]

  -- The loop of `ensure_invitees`, over the addresses that are left: `resolved` are those before them.
  -- The dict keeps the order of the first occurrences, which is the order of the result.
  unfoldable pub resolve_all : Bool → List Text → List Text → Action Db (List User)
  unfolding text_eq
  resolve_all create_missing resolved [] = pure []
  resolve_all create_missing resolved (email ∷ emails) = elim (any_of (text_eq email) resolved) [
    | true ↦ resolve_all create_missing resolved emails
    | false ↦ do
      user ← resolve_one create_missing email
      users ← resolve_all create_missing (email ∷ resolved) emails
      pure (user ∷ users)
  ]

  unfoldable pub ensure_invitees : Bool → List Text → Action Db (List User)
  unfolding strip
  ensure_invitees create_missing emails =
      resolve_all create_missing [] (map (λ e. strip (c.lower e)) emails)
