-- ===== src/Text/Version/Order.antt =====
-- The order of version numbers is a strict total order.
use chromium_compile.Prelude.{◌≡◌, true, false, arith}
use chromium_compile.Text.Version.{Key, key_ltb, key_leb}

pub key_ltb_irrefl : (k : Key) → key_ltb k k ≡ false
unfolding key_ltb
key_ltb_irrefl k = ground arith

pub key_ltb_trans : (k l m : Key) → key_ltb k l ≡ true → key_ltb l m ≡ true → key_ltb k m ≡ true
unfolding key_ltb
key_ltb_trans k l m p q = ground arith

pub key_leb_trans : (k l m : Key) → key_leb k l ≡ true → key_leb l m ≡ true → key_leb k m ≡ true
unfolding key_leb
key_leb_trans k l m p q = ground arith

pub key_leb_antisym : (k l : Key) → key_leb k l ≡ true → key_leb l k ≡ true → k ≡ l
unfolding key_leb
key_leb_antisym k l p q = ground arith

pub key_leb_of_ltb : (k l : Key) → key_ltb k l ≡ true → key_leb k l ≡ true
unfolding key_leb
key_leb_of_ltb k l p = ground arith

pub key_leb_of_not_leb : (k l : Key) → key_leb k l ≡ false → key_leb l k ≡ true
unfolding key_leb
key_leb_of_not_leb k l p = ground arith

pub key_leb_of_not_ltb : (k l : Key) → key_ltb l k ≡ false → key_leb k l ≡ true
unfolding key_leb
key_leb_of_not_ltb k l p = ground arith
