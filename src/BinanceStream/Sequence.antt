-- ===== src/BinanceStream/Sequence.antt =====
-- The order of updates in websocket/binance_order_book_stream.hpp.
use mathlib.Core.Path.{subst}
use crypto_bot.Prelude.{
  ℕ, ◌≤◌, ◌≡◌, refl, sym, ap, ◌∙◌, inl, inr, if◌then◌else◌, Option, none, some, List, [], ◌∷◌,
  Fault, ltb, leb, ltb→lt, Bool-cases, Option-cases, arith,
}
use crypto_bot.Double.{Double}
use crypto_bot.OrderBook.{OrderBook, OrderBookUpdate, update}
use crypto_bot.BinanceStream.{
  DepthUpdate, no_state, Stream, updated, apply_update, and_then, replay, follow, by_future,
  on_message, next_id, deserialize_order_book_update,
}

-- The updates that end behind an id.
unfoldable pub newer : ℕ → List DepthUpdate → List DepthUpdate
newer last [] = []
newer last (m ∷ ms) =
    let rest = newer last ms in if leb m.final_update_id last then rest else m ∷ rest

-- Every update starts at the latest behind the end of the one before it; `id` is where the first
-- is to join.
abbrev pub IsGapless : ℕ → List DepthUpdate → Type 0
IsGapless id [] = Unit
IsGapless id (m ∷ ms) = (m.first_update_id ≤ next_id id) × IsGapless m.final_update_id ms

module _ {ℓ} {D : Type ℓ} ⦃d : Double D⦄ where
  -- A book after a list of updates, one by one, up to the first that throws.
  unfoldable pub apply_all : ℕ → List DepthUpdate → OrderBook D → OrderBook D × Option Fault
  apply_all now [] ob = (ob, none)
  apply_all now (m ∷ ms) ob = elim (update ob (deserialize_order_book_update now m)).1 [
    | some e ↦ update ob (deserialize_order_book_update now m)
    | none ↦ apply_all now ms (update ob (deserialize_order_book_update now m)).0
  ]

  updated_book :
      (r : OrderBook D × Option Fault) (s : Stream D)
      → ((updated r s).0.order_book ≡ r.0) × ((updated r s).1 ≡ r.1)
  updated_book (ob, some e) s = (refl, refl)
  updated_book (ob, none) s = (refl, refl)

  -- The replay of the buffer does to the book what the updates that are newer than the snapshot do
  -- to it, in the order in which they arrived, up to the first that cannot be read.
  pub replay_book :
      (now last : ℕ) (ms : List DepthUpdate) (s : Stream D)
      → ((replay now last ms s).0.order_book ≡ (apply_all now (newer last ms) s.order_book).0)
        × ((replay now last ms s).1 ≡ (apply_all now (newer last ms) s.order_book).1)
  unfolding replay apply_all newer apply_update
  replay_book now last [] s = (refl, refl)
  replay_book now last (m ∷ ms) s = elim (Bool-cases (leb m.final_update_id last)) [
    | inl e ↦ rw (e, replay, newer) (replay_book now last ms s)
    | inr e ↦
        let u = deserialize_order_book_update now m in
        elim (Option-cases (update s.order_book u).1) [
          | inr (x, f) ↦
              rw (e, f, replay, newer, apply_all) (updated_book (update s.order_book u) s)
          | inl f ↦
              let (h1, h2) =
                replay_book now last ms
                  (record (apply_update u s).0 { previous_update_id = m.final_update_id }) in
              let same =
                ap (apply_all now (newer last ms)) (updated_book (update s.order_book u) s).0 in
              rw (e, f, replay, newer, apply_all) (h1 ∙ ap (λ r. r.0) same, h2 ∙ ap (λ r. r.1) same)
        ]
  ]

  -- Messages that arrive one after the other.
  unfoldable pub on_messages :
      OrderBookUpdate → ℕ → List DepthUpdate → Stream D → Stream D × Option Fault
  unfolding on_message
  on_messages memory now [] s = (s, none)
  on_messages memory now (m ∷ ms) s =
      and_then (on_message memory now (some m) s) (on_messages memory now ms)

  IsFollowed : (s : Stream D) → DepthUpdate → ℕ → Stream D × Option Fault → Type ℓ
  IsFollowed s m now r =
      (r.0.order_book ≡ (update s.order_book (deserialize_order_book_update now m)).0)
      × (r.1 ≡ (update s.order_book (deserialize_order_book_update now m)).1)
      × (r.0.book_snapshot_future ≡ no_state)
      × (r.0.previous_update_id ≡ m.final_update_id)

  follow_lem :
      (now : ℕ) (m : DepthUpdate) (s : Stream D)
      → s.book_snapshot_future ≡ no_state
      → m.first_update_id ≤ next_id s.previous_update_id
      → IsFollowed s m now (follow now m s)
  unfolding follow apply_update IsFollowed
  follow_lem now m s f g =
      elim (Bool-cases (ltb (next_id s.previous_update_id) m.first_update_id)) [
        | inl e ↦
            absurd (omega (arith, g, ltb→lt (next_id s.previous_update_id) m.first_update_id e))
        | inr e ↦
            rw (e, follow) (fields (update s.order_book (deserialize_order_book_update now m)) _ f)
      ]
    where
      fields :
          (r : OrderBook D × Option Fault) (s1 : Stream D)
          → s1.book_snapshot_future ≡ no_state
          → ((updated r s1).0.order_book ≡ r.0)
            × ((updated r s1).1 ≡ r.1)
            × ((updated r s1).0.book_snapshot_future ≡ no_state)
            × ((updated r s1).0.previous_update_id ≡ s1.previous_update_id)
      fields (ob, some x) s1 h = (refl, refl, h, refl)
      fields (ob, none) s1 h = (refl, refl, h, refl)

  -- What the messages behind the first one do, by what the first one did.
  IsApplied : Stream D × Option Fault → OrderBook D × Option Fault → Type ℓ
  IsApplied r b = (r.0.order_book ≡ b.0) × (r.1 ≡ b.1) × (r.0.book_snapshot_future ≡ no_state)

  IsApplied-rest :
      (r : Stream D × Option Fault) (b : OrderBook D × Option Fault)
      (f : Stream D → Stream D × Option Fault) (g : OrderBook D → OrderBook D × Option Fault)
      → IsApplied r b
      → IsApplied (f r.0) (g r.0.order_book)
      → IsApplied (and_then r f) (elim b.1 [ some e ↦ b | none ↦ g b.0 ])
  unfolding IsApplied
  IsApplied-rest (s, some x) b f g (h1, h2, h3) k = rw (sym h2) (h1, h2, h3)
  IsApplied-rest (s, none) b f g (h1, h2, h3) (k1, k2, k3) =
      rw (sym h2) (k1 ∙ ap (λ o. (g o).0) h1, k2 ∙ ap (λ o. (g o).1) h1, k3)

  -- With no snapshot under way, messages without a gap between them are applied to the book one by
  -- one, up to the first that cannot be read, and no snapshot is asked for.
  pub on_messages_book :
      (memory : OrderBookUpdate) (now : ℕ) (ms : List DepthUpdate) (s : Stream D)
      → s.book_snapshot_future ≡ no_state
      → IsGapless s.previous_update_id ms
      → let (after, fault) = on_messages memory now ms s in
        (after.order_book ≡ (apply_all now ms s.order_book).0)
        × (fault ≡ (apply_all now ms s.order_book).1)
        × (after.book_snapshot_future ≡ no_state)
  unfolding on_messages apply_all IsFollowed IsApplied
  on_messages_book memory now [] s f g = (refl, refl, f)
  on_messages_book memory now (m ∷ ms) s f (g, gs) =
      let (h1, h2, h3, h4) = follow_lem now m s f g in
      let after = (follow now m s).0 in
      let rest =
        on_messages_book memory now ms after h3 (subst (λ id. IsGapless id ms) (sym h4) gs) in
      let whole : on_message memory now (some m) s ≡ follow now m s =
        ap (λ t. by_future t memory now m s) f in
      subst
        (λ r.
          IsApplied (and_then r (on_messages memory now ms)) (apply_all now (m ∷ ms) s.order_book))
        (sym whole)
        (IsApplied-rest (follow now m s) (update s.order_book (deserialize_order_book_update now m))
          (on_messages memory now ms) (apply_all now ms) (h1, h2, h3) rest)
