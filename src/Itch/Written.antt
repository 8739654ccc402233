-- ===== src/Itch/Written.antt =====
-- A message written by include/tick/itch_writer.hpp is decoded by include/tick/itch_decoder.hpp.
use tickerplant.Prelude.{ℕ, ◌≡◌, refl, sym, ap, ◌∙◌, List, [], ◌∷◌}
use tickerplant.Itch.Lengths.{look_up, message_length}
use tickerplant.Itch.Writer.{
  write_header, write_system_event, write_stock_directory, write_trading_action, write_add_order,
  write_add_order_mpid, write_order_executed, write_order_executed_price, write_order_cancel,
  write_order_delete, write_order_replace, write_trade, write_cross_trade, write_broken_trade,
  store_at, alpha,
}
use tickerplant.Itch.Fields.{Field, char, width, flat, store_all, store_all-flat}
use tickerplant.Itch.Message.{
  Message, system_event, stock_directory, trading_action, add_order, add_order_mpid, order_executed,
  order_executed_price, order_cancel, order_delete, order_replace, trade, cross_trade, broken_trade,
  write, body_of, code_of, fields_of,
}

-- A type that is stored over another.
restore :
    (a b : ℕ) (fs : List Field) (out : List ℕ)
    → store_at 0 (b ∷ []) (store_all 0 (char a ∷ fs) out) ≡ store_all 0 (char b ∷ fs) out
unfolding store_at flat width
restore a b fs out =
    ap (store_at 0 (b ∷ [])) (store_all-flat (char a ∷ fs) out)
    ∙ sym (store_all-flat (char b ∷ fs) out)

pub size-fields : (m : Message) → width (fields_of m) ≡ message_length (code_of m)
unfolding width message_length look_up
size-fields (system_event h c) = refl
size-fields (stock_directory h f) = refl
size-fields (trading_action h s c r) = refl
size-fields (add_order h r c n s p) = refl
size-fields (add_order_mpid h r c n s p m) = refl
size-fields (order_executed h r n m) = refl
size-fields (order_executed_price h r n m b p) = refl
size-fields (order_cancel h r n) = refl
size-fields (order_delete h r) = refl
size-fields (order_replace h o r n p) = refl
size-fields (trade h r c n s p m) = refl
size-fields (cross_trade h n s p m c) = refl
size-fields (broken_trade h m) = refl

-- A writer stores the fields in turn, and returns the length of the message.
pub write-fields :
    (m : Message) (out : List ℕ)
    → write m out ≡ (message_length (code_of m), store_all 0 (fields_of m) out)
unfolding write write_header write_system_event write_stock_directory write_trading_action
    write_add_order write_add_order_mpid write_order_executed write_order_executed_price
    write_order_cancel write_order_delete write_order_replace write_trade write_cross_trade
    write_broken_trade store_all
write-fields (system_event h c) out = refl
write-fields (stock_directory h f) out = refl
write-fields (trading_action h s c r) out = refl
write-fields (add_order h r c n s p) out = refl
write-fields (add_order_mpid h r c n s p m) out =
    ap (λ b. (message_length 70, store_at 36 (alpha 4 m) b))
      (restore 65 70 (body_of (add_order h r c n s p)) out)
write-fields (order_executed h r n m) out = refl
write-fields (order_executed_price h r n m b p) out = refl
write-fields (order_cancel h r n) out = refl
write-fields (order_delete h r) out = refl
write-fields (order_replace h o r n p) out = refl
write-fields (trade h r c n s p m) out = refl
write-fields (cross_trade h n s p m c) out = refl
write-fields (broken_trade h m) out = refl
