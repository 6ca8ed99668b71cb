-- ===== src/Api/Lifecycle/Returned.antt =====
-- What is there when `Server.Run` (internal/api/server.go) returns, and what a late commit does.
use stprov.Prelude.{
  ℕ, suc, true, false, some, List, [], ◌∷◌, ◌++◌, Bytes, In, ◌⊎◌, inl, inr, ◌≡◌, ◌≢◌, refl, arith,
}
use stprov.Api.Lifecycle.{
  waiting, Lifecycle, started, Step, accept, write, keep, send, panic, receive, receive_closed, die,
  close, shut_down, Reachable, start, next, IsReturned,
}

-- One element of a list is gone.
In-without :
    (x : Bytes) (before : List Bytes) (y : Bytes) (after : List Bytes)
    → In x (before ++ y ∷ after)
    → (x ≡ y) ⊎ In x (before ++ after)
In-without x [] y after m = elim m [ inl e ↦ inl e | inr r ↦ inr r ]
In-without x (z ∷ before) y after (inl e) = inr (inl e)
In-without x (z ∷ before) y after (inr m) = elim (In-without x before y after m) [
  | inl e ↦ inl e
  | inr r ↦ inr (inr r)
]

In-middle : (before : List Bytes) (y : Bytes) (after : List Bytes) → In y (before ++ y ∷ after)
In-middle [] y after = inl refl
In-middle (z ∷ before) y after = inr (In-middle before y after)

In-append :
    (x : Bytes) (before : List Bytes) (y : Bytes) (after : List Bytes)
    → In x (before ++ after)
    → In x (before ++ y ∷ after)
In-append x [] y after m = inr m
In-append x (z ∷ before) y after (inl e) = inl e
In-append x (z ∷ before) y after (inr m) = inr (In-append x before y after m)

-- There is a secret.
abbrev HasSecret : Lifecycle → Type 0
HasSecret l = (uds : Bytes) × (l.uds ≡ some uds)

-- Some response is sent.
abbrev pub SomeTold : Lifecycle → Type 0
SomeTold l = (uds : Bytes) × In uds l.told

-- The response for the secret is sent, dropped, or not finished.
abbrev pub Answered : Bytes → Lifecycle → Type 0
Answered uds l = In uds l.sending ⊎ (In uds l.told ⊎ In uds l.lost)

-- Some response is sent, and there is a secret, of a commit whose response is sent too, or was dropped
-- by a panic, or is not finished.
abbrev pub IsTold : Lifecycle → Type 0
IsTold l = SomeTold l × ((uds : Bytes) × (l.uds ≡ some uds) × Answered uds l)

-- A signal that is under way or received comes from a commit.
record IsSound (l : Lifecycle) : Type 0 where
  kept : (uds : Bytes) → l.uds ≡ some uds → Answered uds l
  sending_kept : (uds : Bytes) → In uds l.sending → HasSecret l
  told_kept : SomeTold l → HasSecret l
  buffered_told : (l.buffered ≡ 0) ⊎ SomeTold l
  stopped : (l.serving ≡ true) ⊎ ((l.died ≡ true) ⊎ SomeTold l)
  closed_stopped : l.closed ≡ true → l.serving ≡ false
  ended_stopped : l.await ≢ waiting → l.serving ≡ false

started-IsSound : IsSound started
started-IsSound = record {
  kept = λ uds h. cc;
  sending_kept = λ uds m. absurd m;
  told_kept = λ t. absurd t.1;
  buffered_told = inl refl;
  stopped = inl refl;
  closed_stopped = λ h. cc;
  ended_stopped = λ h. absurd (h refl);
}

-- A number that is not zero is there because of a commit.
told_of : {A : Type 0} {k n : ℕ} → k ≡ suc n → (k ≡ 0) ⊎ A → A
told_of h (inl z) = absurd (ground arith)
told_of h (inr t) = t

stopped_of : {l : Lifecycle} → IsSound l → l.serving ≡ false → (l.died ≡ true) ⊎ SomeTold l
stopped_of s h = elim s.stopped [ inl t ↦ absurd (ground arith) | inr r ↦ r ]

Step-IsSound : {l l' : Lifecycle} → Step l l' → IsSound l → IsSound l'
Step-IsSound (accept l h) s = record {
  kept = s.kept;
  sending_kept = s.sending_kept;
  told_kept = s.told_kept;
  buffered_told = s.buffered_told;
  stopped = s.stopped;
  closed_stopped = s.closed_stopped;
  ended_stopped = s.ended_stopped;
}
Step-IsSound (write l n uds h) s = record {
  kept = s.kept;
  sending_kept = s.sending_kept;
  told_kept = s.told_kept;
  buffered_told = s.buffered_told;
  stopped = s.stopped;
  closed_stopped = s.closed_stopped;
  ended_stopped = s.ended_stopped;
}
Step-IsSound (keep l before uds after h) s = record {
  kept = λ u e. inl (inl (ground arith));
  sending_kept = λ u m. (uds, refl);
  told_kept = λ t. (uds, refl);
  buffered_told = s.buffered_told;
  stopped = s.stopped;
  closed_stopped = s.closed_stopped;
  ended_stopped = s.ended_stopped;
}
Step-IsSound (send l before uds after h open_ empty) s = record {
  kept = λ u e. elim (s.kept u e) [
    | inl m ↦ elim (In-without u before uds after (rw h at m)) [
      | inl same ↦ inr (inl (inl same))
      | inr r ↦ inl r
    ]
    | inr (inl m) ↦ inr (inl (inr m))
    | inr (inr m) ↦ inr (inr m)
  ];
  sending_kept = λ u m. s.sending_kept u (rw h (In-append u before uds after m));
  told_kept = λ t. s.sending_kept uds (rw h (In-middle before uds after));
  buffered_told = inr (uds, inl refl);
  stopped = elim s.stopped [
    | inl z ↦ inl z
    | inr (inl d) ↦ inr (inl d)
    | inr (inr t) ↦ inr (inr (t.0, inr t.1))
  ];
  closed_stopped = s.closed_stopped;
  ended_stopped = s.ended_stopped;
}
Step-IsSound (panic l before uds after h c) s = record {
  kept = λ u e. elim (s.kept u e) [
    | inl m ↦ elim (In-without u before uds after (rw h at m)) [
      | inl same ↦ inr (inr (inl same))
      | inr r ↦ inl r
    ]
    | inr (inl m) ↦ inr (inl m)
    | inr (inr m) ↦ inr (inr (inr m))
  ];
  sending_kept = λ u m. s.sending_kept u (rw h (In-append u before uds after m));
  told_kept = s.told_kept;
  buffered_told = s.buffered_told;
  stopped = s.stopped;
  closed_stopped = s.closed_stopped;
  ended_stopped = s.ended_stopped;
}
Step-IsSound (receive l n a h) s = record {
  kept = s.kept;
  sending_kept = s.sending_kept;
  told_kept = s.told_kept;
  buffered_told = inr (told_of h s.buffered_told);
  stopped = inr (inr (told_of h s.buffered_told));
  closed_stopped = λ c. refl;
  ended_stopped = λ e. refl;
}
Step-IsSound (receive_closed l a h c) s = record {
  kept = s.kept;
  sending_kept = s.sending_kept;
  told_kept = s.told_kept;
  buffered_told = s.buffered_told;
  stopped = inr (stopped_of s (s.closed_stopped c));
  closed_stopped = λ c'. refl;
  ended_stopped = λ e. refl;
}
Step-IsSound (die l h) s = record {
  kept = s.kept;
  sending_kept = s.sending_kept;
  told_kept = s.told_kept;
  buffered_told = s.buffered_told;
  stopped = inr (inl refl);
  closed_stopped = λ c. refl;
  ended_stopped = λ e. refl;
}
Step-IsSound (close l h c) s = record {
  kept = s.kept;
  sending_kept = s.sending_kept;
  told_kept = s.told_kept;
  buffered_told = s.buffered_told;
  stopped = s.stopped;
  closed_stopped = λ c'. h;
  ended_stopped = s.ended_stopped;
}
Step-IsSound (shut_down l a) s = record {
  kept = s.kept;
  sending_kept = s.sending_kept;
  told_kept = s.told_kept;
  buffered_told = s.buffered_told;
  stopped = s.stopped;
  closed_stopped = s.closed_stopped;
  ended_stopped = λ e. s.ended_stopped (ground arith);
}

Reachable-IsSound : {l : Lifecycle} → Reachable l → IsSound l
Reachable-IsSound start = started-IsSound
Reachable-IsSound (next before step) = Step-IsSound step (Reachable-IsSound before)

-- Whatever the order of the steps: when `Run` has returned and the server did not die, a commit was
-- signalled, whose response net/http sends, and there is a unique device secret, of a commit whose
-- response is sent as well, or was dropped when its handler panicked, or is not finished.
pub returned-IsTold : (l : Lifecycle) → Reachable l → IsReturned l → l.died ≡ false → IsTold l
returned-IsTold l reached (a, c) alive =
    let s = Reachable-IsSound reached in
    elim (stopped_of s (s.closed_stopped c)) [
      | inl d ↦ absurd (ground arith)
      | inr t ↦ let (uds, e) = s.told_kept t in (t, (uds, e, s.kept uds e))
    ]

-- After the first commit has stopped the server, a second one that was accepted before may still be
-- made: then `Run` returns with the secret of the second, though the only response that net/http sends
-- is that for the first, since the second was dropped.
pub overwritten-Reachable :
    (first second : Bytes)
    → (l : Lifecycle) × Reachable l
      × IsReturned l
      × (l.died ≡ false)
      × (l.told ≡ first ∷ [])
      × (l.lost ≡ second ∷ [])
      × (l.uds ≡ some second)
overwritten-Reachable first second =
    let l0 = next (next start (accept _ refl)) (accept _ refl) in
    let l1 = next (next l0 (write _ 1 first refl)) (keep _ [] first [] refl) in
    let l2 = next (next l1 (send _ [] first [] refl refl refl)) (receive _ 0 refl refl) in
    let l3 = next (next l2 (close _ refl refl)) (write _ 0 second refl) in
    let l4 = next (next l3 (keep _ [] second [] refl)) (panic _ [] second [] refl refl) in
    (_, next l4 (shut_down _ refl), (refl, refl), refl, refl, refl, refl)
