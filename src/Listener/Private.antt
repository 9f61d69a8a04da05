-- ===== src/Listener/Private.antt =====
-- Who can reach the bridge's listener: bridge_service/src/bridge_listener_unix.go.
use mathlib.Core.Path.{subst}
use hwcontrol.Base.{
  ℕ, String, Bool, true, false, not, ◌≡◌, ◌↔◌, ◌⊎◌, refl, sym, List, [], ◌∷◌, Option, none, some,
  str_eq, inl, inr,
}
use hwcontrol.Base.Result.{Result, ok, err, is_ok, fail_if, both_of_chain, fail_if-eq-ok}
use hwcontrol.Text.Clean.{is_rooted}
use hwcontrol.Listener.{
  bridge_socket_path, ParentEntry, unseen, linked, no_directory, real_directory, SocketEntry,
  nothing, uninspected, symbolic, no_socket, stale_socket, ListenReadings, ListenEffect,
  removed_stale, opened, owner_set, mode_set, closed_and_removed, Listening, others_write,
  check_parent, labelled_error, check_directory, set_owner, listen_at, replace_stale, listen_over,
  listen_checked, bridge_endpoint, listen_bridge,
}

-- Whether a listener is open after the effects.
abbrev pub left_open : List ListenEffect → Bool → Bool
left_open [] is_open = is_open
left_open (removed_stale path ∷ es) is_open = left_open es is_open
left_open (opened network address ∷ es) is_open = left_open es true
left_open (owner_set path uid gid ∷ es) is_open = left_open es is_open
left_open (mode_set path mode ∷ es) is_open = left_open es is_open
left_open (closed_and_removed path ∷ es) is_open = left_open es false

abbrev pub removes_stale : List ListenEffect → Bool
removes_stale [] = false
removes_stale (removed_stale path ∷ es) = true
removes_stale (opened network address ∷ es) = removes_stale es
removes_stale (owner_set path uid gid ∷ es) = removes_stale es
removes_stale (mode_set path mode ∷ es) = removes_stale es
removes_stale (closed_and_removed path ∷ es) = removes_stale es

abbrev pub IsProtected : Option (Result (Unit {0})) → Result (Unit {0}) → Type 0
IsProtected chown chmod = ((chown ≡ none) ⊎ (chown ≡ some (ok tt))) × (chmod ≡ ok tt)

abbrev pub IsOpened : ListenReadings → Type 0
IsOpened seen = (seen.listen_unix ≡ ok tt) × IsProtected seen.chown seen.chmod

abbrev pub IsFree : SocketEntry → Result (Unit {0}) → Type 0
IsFree entry remove = (entry ≡ nothing) ⊎ ((entry ≡ stale_socket) × (remove ≡ ok tt))

abbrev pub IsOwned : ParentEntry → Type 0
IsOwned parent =
    (permissions : ℕ) × (parent ≡ real_directory permissions) × (others_write permissions ≡ false)

-- A directory of one owner, nothing but a socket in the way, and calls that succeed.
abbrev pub IsReady : ListenReadings → Type 0
IsReady seen =
    (is_rooted (bridge_socket_path seen.env_socket) ≡ true)
    × (seen.mkdir ≡ ok tt)
    × IsOwned seen.parent
    × IsFree seen.entry seen.remove
    × IsOpened seen

abbrev IsTidy : String → Listening → Type 0
IsTidy path l = (left_open l.effects false ≡ is_ok l.listener) × (l.endpoint ≡ path)

module _ (path : String) where
  set_owner_lem :
      (ids : ℕ × ℕ) (chown : Option (Result (Unit {0}))) (chmod : Result (Unit {0}))
      → ((set_owner path ids chown chmod).listener ≡ ok tt) ↔ IsProtected chown chmod
  set_owner_lem ids none (ok done) = (λ h. (inl refl, refl), λ h. refl)
  set_owner_lem ids none (err e) = (λ h. cc, λ h. cc)
  set_owner_lem ids (some (ok done)) (ok also) = (λ h. (inr refl, refl), λ h. refl)
  set_owner_lem ids (some (ok done)) (err e) = (λ h. cc, λ h. cc)
  set_owner_lem ids (some (err e)) chmod = (λ h. cc, λ (h, _). elim h [ inl a ↦ cc | inr a ↦ cc ])

  set_owner_effects :
      (ids : ℕ × ℕ) (chown : Option (Result (Unit {0}))) (chmod : Result (Unit {0}))
      → (left_open (set_owner path ids chown chmod).effects true
          ≡ is_ok (set_owner path ids chown chmod).listener)
        × ((set_owner path ids chown chmod).endpoint ≡ path)
        × (removes_stale (set_owner path ids chown chmod).effects ≡ false)
  set_owner_effects ids none (ok done) = (refl, refl, refl)
  set_owner_effects ids none (err e) = (refl, refl, refl)
  set_owner_effects ids (some (ok done)) (ok also) = (refl, refl, refl)
  set_owner_effects ids (some (ok done)) (err e) = (refl, refl, refl)
  set_owner_effects ids (some (err e)) chmod = (refl, refl, refl)

  listen_at_lem :
      (listened : Result (Unit {0})) (ids : ℕ × ℕ) (chown : Option (Result (Unit {0})))
      (chmod : Result (Unit {0}))
      → ((listen_at path listened ids chown chmod).listener ≡ ok tt)
        ↔ ((listened ≡ ok tt) × IsProtected chown chmod)
  listen_at_lem (err e) ids chown chmod = (λ h. cc, λ h. cc)
  listen_at_lem (ok done) ids chown chmod =
      let (there, back) = set_owner_lem ids chown chmod in (λ h. (refl, there h), λ (_, h). back h)

  listen_at_effects :
      (listened : Result (Unit {0})) (ids : ℕ × ℕ) (chown : Option (Result (Unit {0})))
      (chmod : Result (Unit {0}))
      → IsTidy path (listen_at path listened ids chown chmod)
        × (removes_stale (listen_at path listened ids chown chmod).effects ≡ false)
  listen_at_effects (err e) ids chown chmod = ((refl, refl), refl)
  listen_at_effects (ok done) ids chown chmod =
      let (closed, at, kept) = set_owner_effects ids chown chmod in ((closed, at), kept)

  replace_stale_lem :
      (removed : Result (Unit {0})) (seen : ListenReadings)
      → ((replace_stale path removed seen).listener ≡ ok tt) ↔ ((removed ≡ ok tt) × IsOpened seen)
  replace_stale_lem (err e) seen = (λ h. cc, λ h. cc)
  replace_stale_lem (ok done) seen =
      let (there, back) = listen_at_lem seen.listen_unix seen.ids seen.chown seen.chmod in
      (λ h. (refl, there h), λ (_, h). back h)

  listen_over_lem :
      (entry : SocketEntry) (seen : ListenReadings)
      → ((listen_over path entry seen).listener ≡ ok tt)
        ↔ (IsFree entry seen.remove × IsOpened seen)
  listen_over_lem nothing seen =
      let (there, back) = listen_at_lem seen.listen_unix seen.ids seen.chown seen.chmod in
      (λ h. (inl refl, there h), λ (_, h). back h)
  listen_over_lem (uninspected e) seen = (λ h. cc, λ (h, _). elim h [ inl a ↦ cc | inr a ↦ cc ])
  listen_over_lem symbolic seen = (λ h. cc, λ (h, _). elim h [ inl a ↦ cc | inr a ↦ cc ])
  listen_over_lem no_socket seen = (λ h. cc, λ (h, _). elim h [ inl a ↦ cc | inr a ↦ cc ])
  listen_over_lem stale_socket seen =
      let (there, back) = replace_stale_lem seen.remove seen in
      (
        λ h. (inr (refl, (there h).0), (there h).1),
        λ (f, o). elim f [ inl a ↦ cc | inr a ↦ back (a.1, o) ],
      )

  replace_stale_effects :
      (removed : Result (Unit {0})) (seen : ListenReadings)
      → IsTidy path (replace_stale path removed seen)
  replace_stale_effects (err e) seen = (refl, refl)
  replace_stale_effects (ok done) seen =
      (listen_at_effects seen.listen_unix seen.ids seen.chown seen.chmod).0

  listen_over_effects :
      (entry : SocketEntry) (seen : ListenReadings)
      → IsTidy path (listen_over path entry seen)
        × (removes_stale (listen_over path entry seen).effects ≡ true → entry ≡ stale_socket)
  listen_over_effects nothing seen =
      let (tidy, kept) = listen_at_effects seen.listen_unix seen.ids seen.chown seen.chmod in
      (tidy, λ h. cc)
  listen_over_effects (uninspected e) seen = ((refl, refl), λ h. cc)
  listen_over_effects symbolic seen = ((refl, refl), λ h. cc)
  listen_over_effects no_socket seen = ((refl, refl), λ h. cc)
  listen_over_effects stale_socket seen = (replace_stale_effects seen.remove seen, λ h. refl)

  listen_checked_lem :
      (checked : Result (Unit {0})) (seen : ListenReadings)
      → ((listen_checked path checked seen).listener ≡ ok tt)
        ↔ ((checked ≡ ok tt) × IsFree seen.entry seen.remove × IsOpened seen)
  listen_checked_lem (err e) seen = (λ h. cc, λ h. cc)
  listen_checked_lem (ok done) seen =
      let (there, back) = listen_over_lem seen.entry seen in
      (λ h. let (f, o) = there h in (refl, f, o), λ (_, f, o). back (f, o))

  listen_checked_effects :
      (checked : Result (Unit {0})) (seen : ListenReadings)
      → IsTidy path (listen_checked path checked seen)
        × (removes_stale (listen_checked path checked seen).effects ≡ true
            → seen.entry ≡ stale_socket)
  listen_checked_effects (err e) seen = ((refl, refl), λ h. cc)
  listen_checked_effects (ok done) seen = listen_over_effects seen.entry seen

  parent_lem : (p : ParentEntry) → (check_parent p ≡ ok tt) ↔ IsOwned p
  parent_lem (unseen e) = (λ h. cc, λ (_, h, _). cc)
  parent_lem linked = (λ h. cc, λ (_, h, _). cc)
  parent_lem no_directory = (λ h. cc, λ (_, h, _). cc)
  parent_lem (real_directory permissions) = (
    λ h. (permissions, refl, fail_if-eq-ok (others_write permissions) _ h),
    λ (p, e, h). subst (λ q. check_parent q ≡ ok tt) (sym e) (rw h refl),
  )

  directory_lem :
      (seen : ListenReadings)
      → (check_directory path seen ≡ ok tt)
        ↔ ((is_rooted path ≡ true) × (seen.mkdir ≡ ok tt) × IsOwned seen.parent)
  unfolding check_directory
  directory_lem seen =
      let (there, back) = parent_lem seen.parent in
      (
        λ h.
            let (rooted, rest) = both_of_chain _ _ h in
            let (made, parent) = both_of_chain _ _ rest in
            (rooted_of (is_rooted path) rooted, made_of seen.mkdir made, there parent),
        λ (rooted, made, parent). rw (rooted, made) (back parent),
      )
    where
      rooted_of :
          (b : Bool) → fail_if (not b) "bridge socket path must be absolute" ≡ ok tt → b ≡ true
      rooted_of true h = refl
      rooted_of false h = cc

      made_of :
          (r : Result (Unit {0}))
          → labelled_error "create bridge socket directory: " r ≡ ok tt
          → r ≡ ok tt
      made_of (ok done) h = refl
      made_of (err e) h = cc

-- On a unix socket the bridge listens exactly if the path is absolute, its directory could be made
-- and is a real directory that neither group nor others can write, nothing is at the path or a socket
-- that could be removed, and listening, the ownership, where the directory's owner is known, and the
-- mode succeed. A listener is left open exactly if it is returned, so that an error leaves none behind;
-- what is removed before listening is a socket; and the endpoint is the one that the bridge
-- reports as its address.
pub listener_is_private :
    (seen : ListenReadings)
    → str_eq seen.env_tcp_compat "1" ≡ false
    → (((listen_bridge seen).listener ≡ ok tt) ↔ IsReady seen)
      × (left_open (listen_bridge seen).effects false ≡ is_ok (listen_bridge seen).listener)
      × (removes_stale (listen_bridge seen).effects ≡ true → seen.entry ≡ stale_socket)
      × ((listen_bridge seen).endpoint ≡ bridge_endpoint seen)
unfolding listen_bridge bridge_endpoint
listener_is_private seen unix =
    let path = bridge_socket_path seen.env_socket in
    let (there, back) = listen_checked_lem path (check_directory path seen) seen in
    let (checked, pass) = directory_lem path seen in
    let ((tidy, at), stale) = listen_checked_effects path (check_directory path seen) seen in
    rw unix (
      (
        λ h.
            let (c, f, o) = there h in
            let (rooted, made, owned) = checked c in (rooted, made, owned, f, o),
        λ (rooted, made, owned, f, o). back (pass (rooted, made, owned), f, o),
      ),
      tidy,
      stale,
      at,
    )
