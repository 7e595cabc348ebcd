-- ===== src/Engine/Stateless/Sent.antt =====
-- statelessengine.go: the results of one item, sent to the sender.
use tp_lavado_dinero.Prelude.{
  ℕ, ◌<◌, All, ◌≡◌, refl, sym, ap, ◌∙◌, subst, Bool, List, [], ◌∷◌, ◌++◌, append-nil, append_assoc,
  Bytes, bytes_eq, Exec, Result, ok, after,
}
use tp_lavado_dinero.Engine.Sender.{add_item}
use tp_lavado_dinero.Engine.Sender.Rows.{rows}
use tp_lavado_dinero.Engine.Sender.Clients.{waiting, Sound, add_item-Sends}
use tp_lavado_dinero.Engine.Stateless.Defs.{StatelessEngine, by_sender, send_results}

abbrev pub results : {T : Type 0} → List (List T × Bool) → List T
results [] = []
results ((xs, multi) ∷ rs) = xs ++ results rs

pub after_ok :
    {S B D : Type 0} (k : B → Exec S D) (r : Result B × S) (b : B)
    → r.0 ≡ ok b
    → after k r ≡ k b r.1
after_ok k r b e = ap (λ (x : Result _). after k (x, r.1)) e

module _ {Q A T : Type 0} (process : Bytes → A → Exec Q (List T × Bool)) where
  -- The processor takes the items, from the state `q` to `q'`, with these results and no error.
  abbrev pub Processes : Bytes → List A → List (List T × Bool) → Q → Q → Type 0
  Processes id [] [] q q' = q ≡ q'
  Processes id [] (r ∷ rs) q q' = ⊥
  Processes id (a ∷ items) [] q q' = ⊥
  Processes id (a ∷ items) (r ∷ rs) q q' =
      (next : Q) × (process id a q ≡ (ok r, next)) × Processes id items rs next q'

module _ {Q T V : Type 0} (unwrap : V → List T) where
  -- What the client's rows are, published or waiting
  abbrev pub so_far : Bytes → StatelessEngine Q T V → List T
  so_far id s = rows unwrap id s.sender.output.published ++ waiting unwrap id s.sender

module _ {Q T V : Type 0} (unwrap : V → List T) (size : T → ℕ) where
  -- Only the sender has changed, and `all` is published or waits.
  pub record Sent (id : Bytes) (all : List T) (s : StatelessEngine Q T V)
      (r : Result (Unit {0}) × StatelessEngine Q T V) : Type 0 where
    pub returned : r.0 ≡ ok tt
    pub sound : Sound unwrap size id r.1.sender
    pub content : so_far unwrap id r.1 ≡ all
    pub frame : r.1 ≡ record s { sender = r.1.sender }

  pub send_results-Sent :
      (id batch_id : Bytes) (xs : List T) (s : StatelessEngine Q T V)
      → All (λ x. 0 < size x) xs
      → Sound unwrap size id s.sender
      → Sent id (so_far unwrap id s ++ xs) s (send_results id batch_id xs s)
  unfolding send_results by_sender
  send_results-Sent id batch_id [] s p h = record {
    returned = refl;
    sound = h;
    content = sym (append-nil (so_far unwrap id s));
    frame = refl;
  }
  send_results-Sent id batch_id (x ∷ xs) s p h =
      let one = add_item-Sends unwrap size id batch_id x s.sender p.0 h in
      let s' = record s { sender = (add_item id x batch_id s.sender).1 } in
      let rest = send_results-Sent id batch_id xs s' p.1 one.sound in
      let all : so_far unwrap id s' ++ xs ≡ so_far unwrap id s ++ x ∷ xs =
        ap (λ m. m ++ xs) one.content ∙ append_assoc (so_far unwrap id s) (x ∷ []) xs in
      subst (λ ys. Sent id ys s (send_results id batch_id (x ∷ xs) s)) all
        (subst (Sent id (so_far unwrap id s' ++ xs) s)
          (sym (
            after_ok (λ (_ : Unit {0}). send_results id batch_id xs)
              (by_sender (add_item id x batch_id) s) tt one.returned))
          (record {
            returned = rest.returned;
            sound = rest.sound;
            content = rest.content;
            frame = rest.frame;
          }))
