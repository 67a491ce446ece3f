-- ===== src/Sessions/Service/Rotation.antt =====
-- Theorems on the transaction of a rotation (`rotateRefreshToken`, src/auth/refresh-token.service.ts).
use content_intelligence_bac.Base.{
  ℕ, ◌+◌, suc, ◌<◌, ◌≡◌, refl, arith, ◌∙◌, true, false, some, List, String, ◌==◌, inl, inr,
  Option-cases, Bool-cases, find, find_holds, update_where, count_where, snoc, find-snoc,
  find-snoc-some, find-update_where, find-absent, count_where-update_same, count_where-snoc, ok,
  err, Distinct, Below, All-ne_of_Below, Below-mono, Below-snoc, Distinct-snoc, Below-update_where,
  Distinct-update_where, sum_where-update_found, count_both-missing, count_both-found,
  update_both-found, count_where-eq-sum_where, find-All, ==_refl, ==_iff,
}
use content_intelligence_bac.Sessions.Token.{Codec}
use content_intelligence_bac.Sessions.Model.{
  RefreshSession, Sessions, no_longer_valid, is_live, is_live_of,
}
use content_intelligence_bac.Sessions.Service.{
  Client, new_session, is_session, mark_rotated, mark_replaced, swap_session,
}

abbrev pub session_id : RefreshSession → ℕ
session_id r = r.id

-- The identifiers of the sessions are unique, and the database has not given the next one yet.
pub record IsValid (s : Sessions) : Type 0 where
  pub distinct : Distinct session_id s.rows
  pub below : Below session_id s.next_id s.rows

module _ (codec : Codec) (hash : String → ℕ) (ttl : ℕ) where
  module _ (existing : RefreshSession) (client : Client) (token : String) (now : ℕ) (s : Sessions)
      (v : IsValid s) where
    abbrev pub created : RefreshSession
    created = new_session s.next_id existing.user_id (hash token) now ttl client

    -- What a swap that went through leaves: the old row is revoked as rotated and names its successor,
    -- the new one is the user's, and the user has as many live sessions as before.
    pub record IsSwapped (id : ℕ) (s' : Sessions) : Type 0 where
      pub old : RefreshSession
      pub was_live : is_live now old ≡ true
      pub was : find (is_session existing.id) s.rows ≡ some old
      pub closed :
          find (is_session existing.id) s'.rows ≡ some (mark_replaced id (mark_rotated now old))
      pub opened : find (is_session id) s'.rows ≡ some created
      pub fresh : (existing.id == id) ≡ false
      pub valid : IsValid s'

    -- The state after the swap, once the row is known to be live.
    abbrev pub swapped : Sessions
    swapped = record s {
      rows =
          update_where (is_session existing.id) (mark_replaced s.next_id)
            (snoc (update_where (is_session existing.id) (mark_rotated now) s.rows) created);
      next_id = suc s.next_id;
    }

    module _ (old : RefreshSession) (was : find (is_session existing.id) s.rows ≡ some old)
        (live : is_live now old ≡ true) where
      pub swap_session-swapped :
          swap_session codec hash ttl existing client token now s ≡ (ok s.next_id, swapped)
      unfolding swap_session
      swap_session-swapped =
          rw (count_both-found session_id existing.id (is_live now) s.rows old v.distinct was, live)
            (rw (
              update_both-found session_id existing.id (is_live now) (mark_rotated now) s.rows old
                v.distinct was live))

      fresh_id : (existing.id == s.next_id) ≡ false
      fresh_id =
          let lt : old.id < s.next_id =
            find-All (λ x. x.id < s.next_id) (is_session existing.id) s.rows was v.below in
          let same : old.id ≡ existing.id =
            (==_iff _ _).0 (find_holds (is_session existing.id) s.rows old was) in
          ground (arith, same)

      abbrev marked : List RefreshSession
      marked = update_where (is_session existing.id) (mark_rotated now) s.rows

      marked_found : find (is_session existing.id) marked ≡ some (mark_rotated now old)
      marked_found =
          find-update_where (is_session existing.id) (is_session existing.id) (mark_rotated now)
            (λ x. refl) s.rows
          ∙ rw was (rw (find_holds (is_session existing.id) s.rows old was))

      marked-Below : Below session_id s.next_id marked
      marked-Below =
          Below-update_where session_id (is_session existing.id) (mark_rotated now) (λ x. refl)
            s.next_id s.rows v.below

      pub swapped-IsSwapped : IsSwapped s.next_id swapped
      swapped-IsSwapped = record {
        old = old;
        was_live = live;
        was = was;
        closed =
            find-update_where (is_session existing.id) (is_session existing.id)
              (mark_replaced s.next_id) (λ x. refl) (snoc marked created)
            ∙ rw
                (find-snoc-some (is_session existing.id) marked created (mark_rotated now old)
                  marked_found)
                (rw (find_holds (is_session existing.id) s.rows old was));
        opened =
            find-update_where (is_session s.next_id) (is_session existing.id)
              (mark_replaced s.next_id) (λ x. refl) (snoc marked created)
            ∙ rw
                (find-snoc (is_session s.next_id) marked created (
                  find-absent session_id s.next_id marked
                    (All-ne_of_Below session_id s.next_id marked marked-Below)))
                (rw (==_refl s.next_id) (
                  let apart : (s.next_id == existing.id) ≡ false = ground (arith, fresh_id) in
                  rw apart));
        fresh = fresh_id;
        valid = record {
          distinct =
              Distinct-update_where session_id (is_session existing.id) (mark_replaced s.next_id)
                (λ x. refl) (snoc marked created)
                (Distinct-snoc session_id s.next_id marked created
                  (Distinct-update_where session_id (is_session existing.id) (mark_rotated now)
                    (λ x. refl) s.rows v.distinct)
                  marked-Below (omega arith));
          below =
              Below-update_where session_id (is_session existing.id) (mark_replaced s.next_id)
                (λ x. refl) (suc s.next_id) (snoc marked created)
                (Below-snoc session_id (suc s.next_id) marked created
                  (Below-mono session_id s.next_id (suc s.next_id) marked (omega arith)
                    marked-Below)
                  (omega arith));
        };
      }

    swap_session-IsSwapped :
        (id : ℕ) (s' : Sessions)
        → swap_session codec hash ttl existing client token now s ≡ (ok id, s')
        → IsSwapped id s'
    unfolding swap_session
    swap_session-IsSwapped id s' h = elim (Option-cases (find (is_session existing.id) s.rows)) [
      | inl missing ↦
          absurd
            (cc (rw (count_both-missing session_id existing.id (is_live now) s.rows missing) at h))
      | inr (old, was) ↦ elim (Bool-cases (is_live now old)) [
        | inr dead ↦ absurd (
            cc (
              rw
                (
                  count_both-found session_id existing.id (is_live now) s.rows old v.distinct was,
                  dead,
                )
                at h))
        | inl live ↦
            let done = swap_session-swapped old was live in
            let state : swapped ≡ s' = cc (done, h) in
            let named : s.next_id ≡ id = cc (done, h) in
            rw (← state, ← named) (swapped-IsSwapped old was live)
      ]
    ]

    -- Two requests have read the same session before either rotated it, in well-formed tables: once
    -- the transaction of the first has gone through, that of the second is refused at any time and
    -- writes nothing.
    pub swap_session-once :
        (id : ℕ) (s' : Sessions) (client' : Client) (token' : String) (later : ℕ)
        → swap_session codec hash ttl existing client token now s ≡ (ok id, s')
        → swap_session codec hash ttl existing client' token' later s' ≡ (err no_longer_valid, s')
    unfolding swap_session
    swap_session-once id s' client' token' later h =
        let w = swap_session-IsSwapped id s' h in
        rw (
          count_both-found session_id existing.id (is_live later) s'.rows _ w.valid.distinct
            w.closed)

    closed_live :
        (old : RefreshSession)
        → find (is_session existing.id) s.rows ≡ some old
        → is_live now old ≡ true
        → old.user_id ≡ existing.user_id
        → count_where
              (is_live_of existing.user_id now)
              (update_where (is_session existing.id) (mark_rotated now) s.rows)
            + 1
          ≡ count_where (is_live_of existing.user_id now) s.rows
    closed_live old was live owner =
        let e =
          sum_where-update_found session_id existing.id (mark_rotated now)
            (is_live_of existing.user_id now) (λ x. 1) s.rows old v.distinct was in
        let mine : (old.user_id == existing.user_id) ≡ true = rw owner (==_refl existing.user_id) in
        let a = count_where-eq-sum_where (is_live_of existing.user_id now) s.rows in
        let b =
          count_where-eq-sum_where (is_live_of existing.user_id now)
            (update_where (is_session existing.id) (mark_rotated now) s.rows) in
        let f = rw (mine, live, ← a, ← b) at e in omega (arith, f)

    -- The user's live sessions are as many as before.
    pub swapped-live :
        (old : RefreshSession)
        → find (is_session existing.id) s.rows ≡ some old
        → is_live now old ≡ true
        → old.user_id ≡ existing.user_id
        → 0 < ttl
        → count_where (is_live_of existing.user_id now) swapped.rows
          ≡ count_where (is_live_of existing.user_id now) s.rows
    swapped-live old was live owner lasting =
        let e = closed_live old was live owner in
        let fresh : is_live now created ≡ true = ground arith in
        rw
          (
            count_where-update_same (is_live_of existing.user_id now) (is_session existing.id)
                (mark_replaced s.next_id) (λ x. refl)
                (snoc (update_where (is_session existing.id) (mark_rotated now) s.rows) created),
            count_where-snoc (is_live_of existing.user_id now)
                (update_where (is_session existing.id) (mark_rotated now) s.rows) created,
          )
          (rw (==_refl existing.user_id, fresh) e)
