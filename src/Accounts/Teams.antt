-- ===== src/Accounts/Teams.antt =====
-- `TeamsService` (src/teams/teams.service.ts) and the test whether two users share a team
-- (src/common/tenant/team-scope.util.ts). The listings and the presentation are left out.
pub mod Sharing
use content_intelligence_bac.Base.{
  ℕ, ◌-◌, suc, Bool, true, false, not, ◌&&◌, ◌||◌, Option, none, some, List, String, leb, ◌==◌,
  if◌then◌else◌, or_else, holds, find, select, any, update_where, snoc, Result, ok, err, Action,
  ◌>>=◌, ◌>>◌, pure, throw_if, modify, gets, reads, found_or, trim, is_empty, char_or,
}
use Prim.Native.Char.{Char, code}
use Prim.Native.String
use text.Mathlib.Text.{◌==◌ as str_eq}
use content_intelligence_bac.Accounts.Model.{
  User, Membership, Team, TeamLink, Accounts, AccountError, AuditAction, team_not_found,
  code_required, code_taken, text_required, inactive_team, manager_invalid, membership_not_found,
  not_a_member, user_not_found, team_created, team_updated, team_member_added, team_member_removed,
  is_active_membership, is_membership_of,
}
use content_intelligence_bac.Accounts.Users.{Actor, user_audit}

-- `[A-Za-z0-9]`
abbrev pub is_alphanumeric : ℕ → Bool
is_alphanumeric c = (leb 48 c && leb c 57) || (leb 65 c && leb c 90) || (leb 97 c && leb c 122)

-- `replace(/[^A-Za-z0-9]+/g, '_')`: whether the character before was replaced, too.
pub replace_runs : Bool → String → String
replace_runs replaced String.[] = String.[]
replace_runs replaced (String.◌∷◌ c s) =
    let rest = replace_runs (not (is_alphanumeric (code c))) s in
    if is_alphanumeric (code c)
    then String.◌∷◌ c rest
    else if replaced
    then rest
    else String.◌++◌ "_" rest

-- `replace(/^_+|_+$/g, '')`
pub strip_start : String → String
strip_start String.[] = String.[]
strip_start (String.◌∷◌ c s) =
    let rest = strip_start s in if code c == b'_' then rest else String.◌∷◌ c s

pub strip_end : String → String
strip_end String.[] = String.[]
strip_end (String.◌∷◌ c s) =
    let rest = strip_end s in
    if code c == b'_' && is_empty rest then String.[] else String.◌∷◌ c rest

-- `toUpperCase`, of what is left: letters of ASCII, digits and underscores.
pub to_upper : String → String
to_upper String.[] = String.[]
to_upper (String.◌∷◌ c s) =
    String.◌∷◌
      (if leb 97 (code c) && leb (code c) 122
        then char_or "ABCDEFGHIJKLMNOPQRSTUVWXYZ" (code c - 97) c
        else c)
      (to_upper s)

-- `normalizeCode`
pub normalize_code : String → Action Accounts AccountError String
normalize_code value s =
    let normalized = to_upper (strip_end (strip_start (replace_runs false (trim value)))) in
    if is_empty normalized then (err code_required, s) else (ok normalized, s)

-- `requiredText`
pub required_text : String → Action Accounts AccountError String
required_text value s =
    let normalized = trim value in
    if is_empty normalized then (err text_required, s) else (ok normalized, s)

-- `description?.trim() || null`
abbrev pub text_given : Option String → Option String
text_given none = none
text_given (some t) = let text = trim t in if is_empty text then none else some text

abbrev pub has_key : (organization : ℕ) → String → Team → Bool
has_key organization key t = t.organization_id == organization && str_eq t.code key

-- `getTeam`, `getMembership`
abbrev pub get_team : ℕ → Actor → Action Accounts AccountError Team
get_team id actor = reads (λ s.
    found_or (find (λ t. t.id == id && t.organization_id == actor.organization_id) s.teams)
      team_not_found)

abbrev pub get_membership : ℕ → Actor → Action Accounts AccountError Membership
get_membership user actor = reads (λ s.
    found_or (find (is_membership_of user actor.organization_id) s.memberships) user_not_found)

-- `getValidManager`
pub get_valid_manager : ℕ → Actor → Accounts → Result AccountError ℕ
get_valid_manager manager actor s =
    if holds (λ u. u.is_active) (find (λ u. u.id == manager && u.is_active) s.users)
      && any
          (λ m. is_membership_of manager actor.organization_id m && is_active_membership m.status)
          s.memberships
    then ok manager
    else err manager_invalid

-- The manager of a request, where it names one.
pub manager_of : Option ℕ → Actor → Accounts → Result AccountError (Option ℕ)
manager_of none actor s = ok none
manager_of (some id) actor s = elim (get_valid_manager id actor s) [
  | ok manager ↦ ok (some manager)
  | err e ↦ err e
]

pub record CreateTeamDto : Type 0 where
  pub code : String
  pub name : String
  pub description : Option String
  pub manager_id : Option ℕ

abbrev pub add_team : Team → Accounts → Accounts
add_team t s = record s { teams = snoc s.teams t; next_id = suc s.next_id }

-- `create`
pub create : CreateTeamDto → Actor → Action Accounts AccountError Team
create dto actor = do
  key ← normalize_code dto.code
  duplicate ← gets (λ s. any (has_key actor.organization_id key) s.teams)
  throw_if duplicate code_taken
  manager ← reads (manager_of dto.manager_id actor)
  name ← required_text dto.name
  id ← gets (λ s. s.next_id)
  let team : Team = record {
    id = id;
    organization_id = actor.organization_id;
    code = key;
    name = name;
    description = text_given dto.description;
    manager_id = manager;
    is_active = true;
  }
  modify (add_team team)
  modify (user_audit actor (team_created id))
  pure team

-- A field that the request leaves out stays; a description or a manager may be taken away by null.
pub record UpdateTeamDto : Type 0 where
  pub code : Option String
  pub name : Option String
  pub description : Option (Option String)
  pub manager_id : Option (Option ℕ)
  pub is_active : Option Bool

-- The new code, if no other team of the organization has it.
pub new_code : ℕ → Option String → Actor → Action Accounts AccountError (Option String)
new_code id none actor = pure none
new_code id (some value) actor = do
  key ← normalize_code value
  duplicate ← gets (λ s. find (has_key actor.organization_id key) s.teams)
  throw_if (holds (λ t. not (t.id == id)) duplicate) code_taken
  pure (some key)

pub new_name : Option String → Action Accounts AccountError (Option String)
new_name none = pure none
new_name (some value) = required_text value >>= λ name. pure (some name)

pub new_manager : Option (Option ℕ) → Actor → Action Accounts AccountError (Option (Option ℕ))
new_manager none actor = pure none
new_manager (some given) actor = reads (manager_of given actor) >>= λ manager. pure (some manager)

abbrev pub described : Option (Option String) → Option String → Option String
described none old = old
described (some given) old = text_given given

abbrev pub rewrite_team :
    UpdateTeamDto → (key name : Option String) → (manager : Option (Option ℕ)) → Team → Team
rewrite_team dto key name manager t = record t {
  code = or_else key t.code;
  name = or_else name t.name;
  description = described dto.description t.description;
  manager_id = or_else manager t.manager_id;
  is_active = or_else dto.is_active t.is_active;
}

-- `update`; `activate` and `deactivate` call it with the flag alone.
pub update : ℕ → UpdateTeamDto → Actor → Action Accounts AccountError (Unit {0})
update id dto actor = do
  current ← get_team id actor
  key ← new_code id dto.code actor
  name ← new_name dto.name
  manager ← new_manager dto.manager_id actor
  modify (λ s. record s {
    teams = update_where (λ t. t.id == id) (rewrite_team dto key name manager) s.teams;
  })
  modify (user_audit actor (team_updated id))

abbrev pub flag : Bool → UpdateTeamDto
flag active = record {
  code = none;
  name = none;
  description = none;
  manager_id = none;
  is_active = some active;
}

pub activate : ℕ → Actor → Action Accounts AccountError (Unit {0})
activate id actor = update id (flag true) actor

pub deactivate : ℕ → Actor → Action Accounts AccountError (Unit {0})
deactivate id actor = update id (flag false) actor

abbrev pub is_link : (membership team : ℕ) → TeamLink → Bool
is_link membership team l = l.membership_id == membership && l.team_id == team

-- The upsert of a link, which is there once.
abbrev pub add_link : (membership team : ℕ) → Accounts → Accounts
add_link membership team s = if any (is_link membership team) s.team_links then s else record s {
  team_links = snoc s.team_links (record { membership_id = membership; team_id = team });
}

-- `addMember`
pub add_member : ℕ → (user : ℕ) → Actor → Action Accounts AccountError (Unit {0})
add_member id user actor = do
  team ← get_team id actor
  throw_if (not team.is_active) inactive_team
  membership ← get_membership user actor
  modify (add_link membership.id team.id)
  modify (user_audit actor (team_member_added team.id membership.id))

-- `removeMember`
pub remove_member : ℕ → (user : ℕ) → Actor → Action Accounts AccountError (Unit {0})
remove_member id user actor = do
  team ← get_team id actor
  membership ← get_membership user actor
  linked ← gets (λ s. any (is_link membership.id id) s.team_links)
  throw_if (not linked) not_a_member
  modify
      (λ s. record s { team_links = select (λ l. not (is_link membership.id id l)) s.team_links })
  modify (user_audit actor (team_member_removed id membership.id))

-- The relation `membership` of a link.
abbrev pub membership_of_link : Accounts → TeamLink → Option Membership
membership_of_link s l = find (λ m. m.id == l.membership_id) s.memberships

-- `usersShareTenantTeam`; `usersShareTeam` asks for the caller, in the caller's organization.
pub users_share_tenant_team : (first second organization : ℕ) → Accounts → Bool
users_share_tenant_team first second organization s =
    any
      (λ l.
        holds
          (λ m.
            m.user_id == first
            && m.organization_id == organization
            && is_active_membership m.status)
          (membership_of_link s l)
        && any
            (λ k.
              k.team_id == l.team_id
              && holds
                  (λ m.
                    m.user_id == second
                    && m.organization_id == organization
                    && is_active_membership m.status)
                  (membership_of_link s k))
            s.team_links)
      s.team_links

pub users_share_team : (candidate : ℕ) → Actor → Accounts → Bool
unfolding users_share_tenant_team
users_share_team candidate actor s =
    users_share_tenant_team candidate actor.user_id actor.organization_id s
