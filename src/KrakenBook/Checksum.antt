-- ===== src/KrakenBook/Checksum.antt =====
-- What the checksum of websocket/kraken_order_book_handler.hpp vouches for.
use crypto_bot.Prelude.{
  ℕ, ◌≡◌, refl, sym, ap, ◌∙◌, Bool, true, Option, none, some, String, List, Fault, Outcome, ok,
  throws, ◌>>=◌, ◌==◌, arith,
}
use crypto_bot.Double.{Double}
use crypto_bot.OrderBook.{OrderBook}
use crypto_bot.KrakenBook.{
  KrakenLevel, BookPart, BookMessage, calculate_checksum_input, check_book, end_update,
  on_order_book_update, then_second, changes_by_keys, message_by_key, on_order_book_message,
}
use crypto_bot.KrakenBook.Numbers.{stoull}

-- The part of a message that is applied last.
abbrev pub last_part : Option BookPart → BookPart → BookPart
last_part none book = book
last_part (some p) book = p

eq_of_true : (a b : ℕ) → (a == b) ≡ true → b ≡ a
eq_of_true a b h = ground arith

ok_of : (a b : ℕ) → Outcome.ok (a == b) ≡ ok true → (a == b) ≡ true
ok_of a b h = cc

agree :
    (crc : String → ℕ) (o1 : Outcome String) (o2 : Outcome ℕ)
    → (do t ← o1; n ← o2; ok (crc t == n)) ≡ ok true
    → (t : String) × (o1 ≡ ok t) × (o2 ≡ ok (crc t))
agree crc (throws x) o2 h = absurd cc
agree crc (ok t) (throws x) h = absurd cc
agree crc (ok t) (ok n) h = (t, refl, ap ok (eq_of_true (crc t) n (ok_of (crc t) n h)))

module _ {ℓ} {D : Type ℓ} ⦃d : Double D⦄ where
  -- A book whose levels, written out, have the checksum that a text names.
  pub record HasChecksum (crc : String → ℕ) (c : String) (ob : OrderBook D) : Type 0 where
    pub input : String
    pub written : calculate_checksum_input ob ≡ ok input
    pub named : stoull c ≡ ok (crc input)

  module _ (crc : String → ℕ) where
    check_book-HasChecksum :
        (c : String) (ob : OrderBook D)
        → check_book crc true (some c) ob ≡ ok true
        → HasChecksum crc c ob
    unfolding check_book
    check_book-HasChecksum c ob h =
        let (t, e1, e2) = agree crc (calculate_checksum_input ob) (stoull c) h in
        record { input = t; written = e1; named = e2 }

    end_update-HasChecksum :
        (text : Option String) (c : String) (r : OrderBook D × Option Fault)
        → text ≡ some c
        → (end_update crc true text r).1 ≡ ok true
        → HasChecksum crc c (end_update crc true text r).0
    unfolding end_update
    end_update-HasChecksum text c (ob, some e) t h = absurd cc
    end_update-HasChecksum none c (ob, none) t h = absurd cc
    end_update-HasChecksum (some c1) c (ob, none) t h =
        check_book-HasChecksum c ob (ap (λ x. check_book crc true x ob) (sym t) ∙ h)

    on_order_book_update-HasChecksum :
        (p : BookPart) (c : String) (ob : OrderBook D)
        → p.c_text ≡ some c
        → (on_order_book_update crc true p ob).1 ≡ ok true
        → HasChecksum crc c (on_order_book_update crc true p ob).0
    unfolding on_order_book_update
    on_order_book_update-HasChecksum p c ob t h = end_update-HasChecksum p.c_text c _ t h

    then_second-HasChecksum :
        (second : Option BookPart) (p : BookPart) (c : String) (r : OrderBook D × Outcome Bool)
        → (p.c_text ≡ some c → r.1 ≡ ok true → HasChecksum crc c r.0)
        → (last_part second p).c_text ≡ some c
        → (then_second crc true second r).1 ≡ ok true
        → HasChecksum crc c (then_second crc true second r).0
    unfolding then_second
    then_second-HasChecksum second p c (ob, throws x) first t h = absurd cc
    then_second-HasChecksum none p c (ob, ok b) first t h = first t h
    then_second-HasChecksum (some p2) p c (ob, ok b) first t h =
        on_order_book_update-HasChecksum p2 c ob t h

    both-HasChecksum :
        (m : BookMessage) (c : String) (ob : OrderBook D)
        → (last_part m.second m.book).c_text ≡ some c
        → (then_second crc true m.second (on_order_book_update crc true m.book ob)).1 ≡ ok true
        → HasChecksum crc c
            (then_second crc true m.second (on_order_book_update crc true m.book ob)).0
    both-HasChecksum m c ob t h =
        then_second-HasChecksum m.second m.book c _ (on_order_book_update-HasChecksum m.book c ob) t
          h

    changes_by_keys-HasChecksum :
        (a b : Option (List KrakenLevel)) (m : BookMessage) (c : String) (ob : OrderBook D)
        → (last_part m.second m.book).c_text ≡ some c
        → (changes_by_keys crc true a b m ob).1 ≡ ok true
        → HasChecksum crc c (changes_by_keys crc true a b m ob).0
    unfolding changes_by_keys
    changes_by_keys-HasChecksum none none m c ob t h = absurd cc
    changes_by_keys-HasChecksum (some a) b m c ob t h = both-HasChecksum m c ob t h
    changes_by_keys-HasChecksum none (some b) m c ob t h = both-HasChecksum m c ob t h

    message_by_key-HasChecksum :
        (asks : Option (List KrakenLevel)) (m : BookMessage) (c : String) (ob : OrderBook D)
        → asks ≡ none
        → (last_part m.second m.book).c_text ≡ some c
        → (message_by_key crc true asks m ob).1 ≡ ok true
        → HasChecksum crc c (message_by_key crc true asks m ob).0
    unfolding message_by_key
    message_by_key-HasChecksum (some asks) m c ob e t h = absurd cc
    message_by_key-HasChecksum none m c ob e t h =
        changes_by_keys-HasChecksum m.book.a_levels m.book.b_levels m c ob t h

    -- With validation on, a message of changes that the handler calls valid leaves a book whose
    -- levels, written out, have the checksum that the last part of the message names, where it
    -- names one. That a first part before another names is not looked at in the end.
    pub on_order_book_message-HasChecksum :
        (m : BookMessage) (c : String) (ob : OrderBook D)
        → m.book.as_levels ≡ none
        → (last_part m.second m.book).c_text ≡ some c
        → (on_order_book_message crc true m ob).1 ≡ ok true
        → HasChecksum crc c (on_order_book_message crc true m ob).0
    unfolding on_order_book_message
    on_order_book_message-HasChecksum m c ob e t h =
        message_by_key-HasChecksum m.book.as_levels m c ob e t h
