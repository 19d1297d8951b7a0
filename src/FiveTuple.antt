-- ===== src/FiveTuple.antt =====
-- `struct FiveTuple` and `five_tuple_equals` of src/hashmap.h and src/hashmap.c. The fields are
-- words of 32, 32, 16, 16 and 8 bits, which are only moved and compared.
use o_rss_nic.Prelude.{Bool, arith, refl, true, ℕ, ◌&&◌, ◌==◌, ◌↔◌, ◌≡◌}

pub record FiveTuple : Type 0 where
  pub src_ip : ℕ
  pub dst_ip : ℕ
  pub src_port : ℕ
  pub dst_port : ℕ
  pub proto : ℕ

-- `(struct FiveTuple){0}`
abbrev pub zero_tuple : FiveTuple
zero_tuple = record { src_ip = 0; dst_ip = 0; src_port = 0; dst_port = 0; proto = 0 }

unfoldable pub five_tuple_equals : FiveTuple → FiveTuple → Bool
five_tuple_equals a b =
    a.src_ip == b.src_ip
    && a.dst_ip == b.dst_ip
    && a.src_port == b.src_port
    && a.dst_port == b.dst_port
    && a.proto == b.proto

-- `five_tuple_equals` compares whole keys: it says yes exactly when the two are one key.
pub five_tuple_equals_iff : (a b : FiveTuple) → (five_tuple_equals a b ≡ true) ↔ (a ≡ b)
unfolding five_tuple_equals
five_tuple_equals_iff a b = ground arith

pub five_tuple_equals_refl : (a : FiveTuple) → five_tuple_equals a a ≡ true
five_tuple_equals_refl a = (five_tuple_equals_iff a a).1 refl
