-- ===== src/Net/EpollPoller/Active.antt =====
-- What `poll` passes on.
use yedis.Prelude.{
  ℕ, ◌≡◌, refl, sym, ap, ◌∙◌, Bool, true, false, some, List, [], ◌∷◌, ◌++◌, append-nil,
  append_assoc, if◌then◌else◌,
}
use yedis.Prelude.Maps.{put-keeps}
use yedis.Net.Channel.{Events, Channel, set_events}
use yedis.Net.EpollPoller.{Poller, modify, has_channel, points_to, fill_active_channels, poll}

module _ {K : Type 0} where
  -- The pointers of the events, up to the first that is not a channel of the poller.
  abbrev pub known_pointers : Poller K → List (Events × ℕ) → List ℕ
  known_pointers s [] = []
  known_pointers s ((e, p) ∷ events) = if has_channel p s then p ∷ known_pointers s events else []

  has_channel-modify :
      (q p : ℕ) (e : Events) (s : Poller K)
      → has_channel q (modify p (set_events e) s) ≡ has_channel q s
  unfolding has_channel
  has_channel-modify q p e s =
      ap (λ fd. points_to q (s.map_channels fd))
        (put-keeps (λ (c : Channel). c.sockfd) p (set_events e (s.channels p)) s.channels refl q)

  known_pointers-modify :
      (p : ℕ) (e : Events) (s : Poller K) (events : List (Events × ℕ))
      → known_pointers (modify p (set_events e) s) events ≡ known_pointers s events
  known_pointers-modify p e s [] = refl
  known_pointers-modify p e s ((e', q) ∷ events) =
      ap (λ b. if b then q ∷ known_pointers (modify p (set_events e) s) events else [])
        (has_channel-modify q p e s)
      ∙ ap (λ l. if has_channel q s then q ∷ l else []) (known_pointers-modify p e s events)

  either-branch :
      (b : Bool) (p : ℕ) (active rest : List ℕ) (r : List ℕ × Poller K) (s : Poller K)
      → r.0 ≡ active ++ p ∷ rest
      → (if b then r else (active, s)).0 ≡ active ++ (if b then p ∷ rest else [])
  either-branch true p active rest r s h = h
  either-branch false p active rest r s h = sym (append-nil active)

  fill_active_channels-known_pointers :
      (events : List (Events × ℕ)) (active : List ℕ) (s : Poller K)
      → (fill_active_channels events active s).0 ≡ active ++ known_pointers s events
  unfolding fill_active_channels
  fill_active_channels-known_pointers [] active s = sym (append-nil active)
  fill_active_channels-known_pointers ((e, p) ∷ rest) active s =
      let s' = modify p (set_events e) s in
      let others = fill_active_channels rest (active ++ p ∷ []) s' in
      either-branch (has_channel p s) p active (known_pointers s rest) others s (
        fill_active_channels-known_pointers rest (active ++ p ∷ []) s'
        ∙ append_assoc active (p ∷ []) (known_pointers s' rest)
        ∙ ap (λ l. active ++ p ∷ l) (known_pointers-modify p e s rest))

-- What `poll` passes on is the channels of the events, in their order, up to the first event whose
-- pointer is not a channel of the poller: none of those behind it is passed on.
pub poll-known_pointers :
    {K : Type 0} (events : List (Events × ℕ)) (s : Poller K)
    → (poll (some events) s).0 ≡ known_pointers s events
unfolding poll
poll-known_pointers [] s = refl
poll-known_pointers (e ∷ events) s = fill_active_channels-known_pointers (e ∷ events) [] s
