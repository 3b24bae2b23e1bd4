-- ===== src/Api/Aside/Laws.antt =====
-- internal/api: what is held of the tables that an SDK is served from outlasts a change beside them.
use knobs.Base.{◌≡◌, ap, ◌∙◌, ℕ, ◌+◌, ◌-◌, ◌≤◌, ℕ_eq, arith, inr}
use knobs.Assoc.{lookup}
use knobs.Store.{Db}
use knobs.Store.Laws.{IsSound}
use knobs.Api.Values.Grows.{Grows, revision_at, project_of}
use knobs.Api.Projects.Named.{AreNamed}
use knobs.Api.Aside.{Served, IsAside}

shifted : (a b k : ℕ) → a ≤ b → b + k ≡ a + (b - a + k)
shifted a b k h = omega arith

module _ {S V R : Type 0} where
  -- A change beside the tables that are served keeps what is held of them.
  pub aside-IsSound :
      (before after : Db S V R) → IsAside before after → IsSound before → IsSound after
  aside-IsSound before after aside h =
      let versions = ap (λ (s : Served V R). s.versions) aside.0 in
      let environments = ap (λ (s : Served V R). s.environments) aside.0 in
      let taken = after.next_id - before.next_id in
      record {
        fresh_version = λ k. rw versions (
            ap (λ n. lookup n before.versions) (shifted before.next_id after.next_id k aside.1)
            ∙ h.fresh_version (taken + k));
        fresh_environment = λ k. rw environments (
            ap (λ n. lookup n before.environments) (shifted before.next_id after.next_id k aside.1)
            ∙ h.fresh_environment (taken + k));
        is_map = rw versions h.is_map;
        is_numbered = rw versions h.is_numbered;
        points = λ j. rw (versions, environments) (h.points j);
      }

  pub aside-Grows : (before after : Db S V R) → IsAside before after → Grows before after
  unfolding revision_at
  aside-Grows before after aside = record {
    history = λ j. inr (ap (λ (s : Served V R). lookup j s.versions) aside.0);
    revisions = λ j. rw (ap (λ (s : Served V R). s.environments) aside.0) (omega arith);
    places = λ j. inr (ap (λ (s : Served V R). project_of (lookup j s.environments)) aside.0);
  }

  pub aside-AreNamed :
      (before after : Db S V R)
      → IsAside before after
      → AreNamed before.projects before.environments
      → AreNamed after.projects after.environments
  aside-AreNamed before after aside h =
      rw
        (
          ap (λ (s : Served V R). s.projects) aside.0,
          ap (λ (s : Served V R). s.environments) aside.0,
        )
        h
