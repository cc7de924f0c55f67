-- ===== src/Server/Routing/Filter.antt =====
-- The filter on websocket upgrades.
use websockets.Prelude.{
  ◌≡◌, ◌↔◌, ◌⊎◌, inl, inr, refl, ap, true, none, some, List, [], ◌∷◌, Bool-cases, Option-cases,
}
use websockets.Text.{Text}
use websockets.Target.{uri_matches}
use websockets.Server.{Server}
use websockets.Server.Routing.{any_matches, upgrade_allowed}
use websockets.Server.Routing.Laws.{Holds}

any_matches_iff :
    (allowed : List Text) (path : Text)
    → (any_matches allowed path ≡ true)
      ↔ ((uri : Text) × Holds uri allowed × (uri_matches uri path ≡ true))
unfolding any_matches
any_matches_iff [] path = (λ e. cc, λ h. elim h.1 [ ])
any_matches_iff (u ∷ us) path = elim (Bool-cases (uri_matches u path)) [
  | inl e ↦ (λ _. (u, inl refl, e), λ _. rw e)
  | inr e ↦ (
    λ h. let (uri, k, m) = (any_matches_iff us path).0 (rw e at h) in (uri, inr k, m),
    λ (uri, k, m). elim k [
      | inl same ↦ cc (ap (λ t. uri_matches t path) same)
      | inr later ↦ rw e ((any_matches_iff us path).1 (uri, later, m))
    ],
  )
]

-- `UpgradeAllowed` holds exactly when no list is set or some listed uri matches the path.
pub upgrade_allowed_iff :
    (s : Server) (path : Text)
    → (upgrade_allowed s path ≡ true) ↔ (
        (s.settings.allowed_uris ≡ none)
        ⊎ ((allowed : List Text) × (s.settings.allowed_uris ≡ some allowed)
            × ((uri : Text) × Holds uri allowed × (uri_matches uri path ≡ true))))
unfolding upgrade_allowed
upgrade_allowed_iff s path = elim (Option-cases s.settings.allowed_uris) [
  | inl e ↦ (λ h. inl e, λ h. rw (e, upgrade_allowed))
  | inr (uris, e) ↦ (
    λ h. inr (uris, e, (any_matches_iff uris path).0 (rw (e, upgrade_allowed) at h)),
    λ h. elim h [
      | inl e' ↦ cc
      | inr (allowed, e', m) ↦ rw (e', upgrade_allowed) ((any_matches_iff allowed path).1 m)
    ],
  )
]
