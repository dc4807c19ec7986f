-- ===== src/Access/Keys/Rotation.antt =====
-- RotateKey of internal/access/store.go.
use cpa_access_manager.Base.{
  ◌≡◌, refl, sym, ap, ◌∙◌, subst, inl, inr, true, false, ◌&&◌, not, List, [], ◌∷◌, Option, none,
  some, All, In, any, update_where, arith,
}
use cpa_access_manager.Base.{Bool-cases}
use cpa_access_manager.Base.Distinct.{Distinct}
use cpa_access_manager.Base.Text.{Text, text_eq, trim_space}
use cpa_access_manager.Access.Types.{Time, Key}
use cpa_access_manager.Access.Time.{stamp}
use cpa_access_manager.Access.Normalize.{Platform, hash_token}
use cpa_access_manager.Access.Keys.{rotate_key, rotate_row, update_key_row, get_key}
use cpa_access_manager.Access.Keys.Token.{NewToken, new_plain_key}
use cpa_access_manager.Access.Db.{Result, ok, State, lift, statement}
use cpa_access_manager.Access.Db.Success.{bind_ok, pure_ok, statement_ok}
use cpa_access_manager.Access.Db.Reads.{read_same}
use cpa_access_manager.Access.Clean.Reads.{get_key-ReadsOnly}
use cpa_access_manager.Access.Db.Schema.{Tables, KeyRow}

-- A row of the table has the hash exactly if it is the key's, the rows of the other keys are those that
-- were there, and no row has another hash that the key had.
pub record IsRotated (id hash : Text) (t t' : Tables) : Type 0 where
  pub exclusive : All (λ r. text_eq r.key_hash hash ≡ text_eq r.id id) t'.keys
  pub known : any (λ r. text_eq r.id id) t.keys ≡ true
  pub others : (r : KeyRow) → In r t.keys → text_eq r.id id ≡ false → In r t'.keys
  pub no_new : (r : KeyRow) → In r t'.keys → text_eq r.id id ≡ false → In r t.keys
  pub revoked :
      (k : KeyRow)
      → In k t.keys
      → text_eq k.id id ≡ true
      → text_eq k.key_hash hash ≡ false
      → any (λ r. text_eq r.key_hash k.key_hash) t'.keys ≡ false
  pub usage_same : (t'.usage_ledger ≡ t.usage_ledger) × (t'.key_bindings ≡ t.key_bindings)

abbrev with_token : NewToken → Text → KeyRow → KeyRow
with_token n now k = record k {
  key_hash = n.hash;
  key_prefix = n.prefix;
  key_plain = n.plain;
  updated_at = now;
}

text_eq_same : (s : Text) → text_eq s s ≡ true
text_eq_same s = ground arith

rotated_rows :
    (id now : Text) (n : NewToken) (ks : List KeyRow)
    → any (λ k. text_eq k.key_hash n.hash && not (text_eq k.id id)) ks ≡ false
    → All
        (λ r. text_eq r.key_hash n.hash ≡ text_eq r.id id)
        (update_where (λ k. text_eq k.id id) (with_token n now) ks)
unfolding any update_where
rotated_rows id now n [] h = tt
rotated_rows id now n (k ∷ ks) h = ground (arith, text_eq_same n.hash, rotated_rows id now n ks)

other_rows :
    (id now : Text) (n : NewToken) (ks : List KeyRow) (r : KeyRow)
    → In r ks
    → text_eq r.id id ≡ false
    → In r (update_where (λ k. text_eq k.id id) (with_token n now) ks)
unfolding update_where
other_rows id now n [] r m h = absurd m
other_rows id now n (k ∷ ks) r (inl e) h = rw (← e, h) (inl refl)
other_rows id now n (k ∷ ks) r (inr m) h = ground (arith, other_rows id now n ks r m h)

no_new_rows :
    (id now : Text) (n : NewToken) (ks : List KeyRow) (r : KeyRow)
    → In r (update_where (λ k. text_eq k.id id) (with_token n now) ks)
    → text_eq r.id id ≡ false
    → In r ks
unfolding update_where
no_new_rows id now n [] r m h = absurd m
no_new_rows id now n (k ∷ ks) r (inr m) h = inr (no_new_rows id now n ks r m h)
no_new_rows id now n (k ∷ ks) r (inl e) h = elim (Bool-cases (text_eq k.id id)) [
  | inl own ↦ absurd (ground (arith, e, own, h))
  | inr other ↦ inl (ground (arith, e, other))
]

-- A hash that no row has, and that is not the new one, no row has afterwards.
still_free :
    (id now hash : Text) (n : NewToken) (ks : List KeyRow)
    → text_eq hash n.hash ≡ false
    → any (λ r. text_eq r.key_hash hash) ks ≡ false
    → any (λ r. text_eq r.key_hash hash) (update_where (λ k. text_eq k.id id) (with_token n now) ks)
      ≡ false
unfolding any update_where
still_free id now hash n [] d h = refl
still_free id now hash n (k ∷ ks) d h =
    ground (arith, still_free id now hash n ks d, not_same n.hash hash)
  where
    not_same : (a b : Text) → text_eq b a ≡ false → text_eq a b ≡ false
    not_same a b e = ground arith

apart_of_In :
    (k x : KeyRow) (ks : List KeyRow)
    → In k ks
    → any (λ r. text_eq r.key_hash x.key_hash) ks ≡ false
    → text_eq x.key_hash k.key_hash ≡ false
unfolding any
apart_of_In k x [] m h = absurd m
apart_of_In k x (y ∷ ks) (inl e) h = ground (arith, e)
apart_of_In k x (y ∷ ks) (inr m) h = apart_of_In k x ks m (ground arith)

revoked_rows :
    (id now : Text) (n : NewToken) (ks : List KeyRow) (k : KeyRow)
    → Distinct (λ r. r.key_hash) ks
    → In k ks
    → text_eq k.id id ≡ true
    → text_eq k.key_hash n.hash ≡ false
    → any
        (λ r. text_eq r.key_hash k.key_hash)
        (update_where (λ r. text_eq r.id id) (with_token n now) ks)
      ≡ false
unfolding any update_where
revoked_rows id now n [] k h m own d = refl
revoked_rows id now n (x ∷ ks) k h (inl e) own d =
    let free = still_free id now k.key_hash n ks d (
      subst (λ v. any (λ r. text_eq r.key_hash v) ks ≡ false) (ap (λ r. r.key_hash) (sym e)) h.0) in
    ground (arith, e, free)
revoked_rows id now n (x ∷ ks) k h (inr m) own d =
    ground (arith, apart_of_In k x ks m h.0, revoked_rows id now n ks k h.1 m own d)

rotate_row_ok :
    (id now : Text) (n : NewToken) (t : Tables)
    → (rotate_row id n now t).0 ≡ ok tt
    → (any (λ k. text_eq k.id id) t.keys ≡ true)
      × (any (λ k. text_eq k.key_hash n.hash && not (text_eq k.id id)) t.keys ≡ false)
      × ((rotate_row id n now t).1 ≡ update_key_row id (with_token n now) t)
unfolding rotate_row
rotate_row_ok id now n t h = ground arith

rotate_row-IsRotated :
    (id now : Text) (n : NewToken) (t : Tables)
    → Distinct (λ r. r.key_hash) t.keys
    → (rotate_row id n now t).0 ≡ ok tt
    → IsRotated id n.hash t (rotate_row id n now t).1
unfolding update_key_row
rotate_row-IsRotated id now n t d h =
    let (known, free, same) = rotate_row_ok id now n t h in
    subst (IsRotated id n.hash t) (sym same) (record {
      exclusive = rotated_rows id now n t.keys free;
      known = known;
      others = other_rows id now n t.keys;
      no_new = no_new_rows id now n t.keys;
      revoked = λ k. revoked_rows id now n t.keys k d;
      usage_same = (refl, refl);
    })

new_plain_key_ok :
    (p : Platform) (read : Option Text) (n : NewToken)
    → new_plain_key p read ≡ ok n
    → n.hash ≡ hash_token p n.plain
unfolding new_plain_key
new_plain_key_ok p none n h = absurd (cc)
new_plain_key_ok p (some bytes) n h = ground arith

lift_ok :
    {A : Type 0} (r : Result A) (s t : State) (a : A) → lift r s ≡ (ok a, t) → (r ≡ ok a) × (t ≡ s)
unfolding lift
lift_ok r s t a h = ground arith

-- Where no two keys have the same hash, after RotateKey without an error: the key exists, a row has the
-- hash of the returned token exactly if it is the row of that key, so that the token opens no other
-- key; no row has another hash that the key had before, so that its earlier token opens nothing; the rows
-- of the other keys are those that were there; and usage and bindings are as they were.
pub rotate_key_exclusive :
    (p : Platform) (id : Text) (read : Option Text) (present : Time) (s s' : State) (key : Key)
    (plain : Text)
    → Distinct (λ r. r.key_hash) s.store.db.keys
    → rotate_key p id read present s ≡ (ok (key, plain), s')
    → IsRotated (trim_space id) (hash_token p plain) s.store.db s'.store.db
unfolding rotate_key
rotate_key_exclusive p id read present s s' key plain d h =
    let (n, t, made, h1) = bind_ok (lift (new_plain_key p read)) _ s (key, plain) s' h in
    let (u, t1, written, h2) =
      bind_ok (statement (rotate_row (trim_space id) n (stamp present))) _ t (key, plain) s' h1 in
    let (k, t2, got, h3) = bind_ok (get_key id present) _ t1 (key, plain) s' h2 in
    let (result, last) = pure_ok (k, n.plain) t2 (key, plain) s' h3 in
    let (fresh, start) = lift_ok (new_plain_key p read) s t n made in
    let (done, store) =
      statement_ok (rotate_row (trim_space id) n (stamp present)) t tt t1 written in
    let distinct = subst (λ x. Distinct (λ r. r.key_hash) x.store.db.keys) (sym start) d in
    let rotated = rotate_row-IsRotated (trim_space id) (stamp present) n t.store.db distinct done in
    let same =
      ap (λ x. x.store) last ∙ read_same t1 t2 (ok k) (get_key-ReadsOnly id present) got ∙ store in
    let plain_same = ap (λ x. x.1) result in
    subst (λ x. IsRotated (trim_space id) (hash_token p x) s.store.db s'.store.db) (sym plain_same)
      (subst (λ x. IsRotated (trim_space id) x s.store.db s'.store.db)
        (new_plain_key_ok p read n fresh)
        (subst (λ x. IsRotated (trim_space id) n.hash s.store.db x.db) (sym same)
          (subst
            (λ x.
              IsRotated (trim_space id) n.hash x.store.db
                (rotate_row (trim_space id) n (stamp present) t.store.db).1)
            start rotated)))
