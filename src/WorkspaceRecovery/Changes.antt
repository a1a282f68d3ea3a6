-- ===== src/WorkspaceRecovery/Changes.antt =====
-- A change that is logged without an error can be recovered: internal/storage/workspacestore/store.go.
use monofs.Prelude.{
  ℕ, suc, ◌+◌, ◌^◌, ◌<◌, ◌≤◌, Option, none, some, [], ◌∷◌, ◌++◌, ◌≡◌, refl, sym, ap, subst, ◌∙◌,
  arith,
}
use monofs.Prelude.Int.{ℤ}
use monofs.WorkspaceLog.{
  WalEntry, WalWriter, LogDir, WalError, AppendOutcome, EntityKind, WalOp, list_segments, append,
}
use monofs.WorkspaceLog.Reading.{
  Ascending, Ascending-snoc, Below, Below-append, Below-le, AllFit, Grows, append-Grows,
  append-Grows_unencoded,
}
use monofs.WorkspaceLog.Keeping.{above, above-snoc, Below-above}
use monofs.WorkspaceStore.{
  Contents, StoreJson, Disk, WorkspaceStore, StoreError, seq_after, logged, write_wal, change,
}
use monofs.WorkspaceRecovery.{replay_all}
use monofs.WorkspaceRecovery.Forget.{Faithful, LinesFit, Repeats}
use monofs.WorkspaceRecovery.Loading.{IsKept}
use monofs.WorkspaceRecovery.Invariant.{entries, IsRecoverable, load_base-log, replays-snoc}

module _ {B Job : Type 0} (json : StoreJson B Job) (faithful : Faithful json) where
  -- What a method that took the number `n` leaves: nothing is claimed where it returns an error.
  abbrev pub Leaves : ℕ → WorkspaceStore B Job × Disk B × Option StoreError → Type 0
  Leaves n (s, d, none) = IsRecoverable json faithful s d × (s.next_seq ≤ suc n)
  Leaves n (s, d, some e) = Unit

  -- The numbers in use stay below 2 ^ 64.
  pub seq_after_lem : (n : ℕ) → n + 1 < 2 ^ 64 → seq_after n ≡ suc n
  seq_after_lem n h = omega arith

  logged-Leaves :
      (s : WorkspaceStore B Job) (d : Disk B) (e : WalEntry B) (after : Contents B Job)
      (r : LogDir B × WalWriter × Option WalError)
      → IsRecoverable json faithful s d
      → e.seq ≡ s.next_seq
      → e.seq + 1 < 2 ^ 64
      → Repeats json e s.contents after
      → IsKept json faithful after
      → Grows json.line_size json.of_entry e (list_segments d.log) r
      → Leaves e.seq (logged json r (record s { next_seq = seq_after e.seq; contents = after }) d)
  logged-Leaves s d e after (l, w, some x) inv q b rep kept g = _
  logged-Leaves s d e after (l, w, none) inv q b rep kept (grown, fit) =
      let (k', applied, forgot) = rep inv.restored inv.same in
      let es = entries json faithful d in
      let over : inv.from < e.seq = subst (λ n. inv.from < n) (sym q) inv.ahead in
      let under : Below e.seq es = subst (λ n. Below n es) (sym q) inv.bounded in
      let longer : above inv.from (entries json faithful (record d { log = l }))
          ≡ above inv.from es ++ e ∷ [] =
        ap (above inv.from) grown ∙ above-snoc inv.from es e over in
      (
        record {
          base = inv.base;
          from = inv.from;
          start = inv.start;
          restored = k';
          loads = load_base-log json faithful l d ∙ inv.loads;
          replays =
              ap (λ xs. replay_all json xs (inv.base, inv.start)) longer
              ∙ replays-snoc json faithful (above inv.from es) e (inv.base, inv.start) inv.restored
                  k' (inv.replays ∙ ap (λ n. (inv.restored, n)) (sym q)) applied;
          same = forgot;
          rising = subst Ascending (sym longer) (
              Ascending-snoc (above inv.from es) e inv.rising
                (Below-above inv.from e.seq es under));
          bounded = subst (Below (seq_after e.seq)) (sym grown) (
              Below-append (seq_after e.seq) es (e ∷ [])
                (Below-le e.seq (seq_after e.seq) es (omega (arith, seq_after_lem e.seq b)) under)
                (omega (arith, seq_after_lem e.seq b), _));
          ahead = omega (arith, seq_after_lem e.seq b);
          fits = fit;
          kept = kept;
          writer = w;
          has_wal = refl;
          source = inv.source;
        },
        omega (arith, seq_after_lem e.seq b),
      )

  append-Grows_fit :
      LinesFit json
      → (outcome : AppendOutcome) (e : WalEntry B) (d : LogDir B) (w : WalWriter)
      → AllFit json.line_size json.of_entry (list_segments d)
      → Grows json.line_size json.of_entry e
          (list_segments d)
          (append json.line_size json.of_entry outcome e d w)
  append-Grows_fit fit outcome e d w h = go (json.of_entry.marshal e) refl
    where
      go :
          (o : Option B)
          → json.of_entry.marshal e ≡ o
          → Grows json.line_size json.of_entry e
              (list_segments d)
              (append json.line_size json.of_entry outcome e d w)
      go none m = append-Grows_unencoded json.line_size json.of_entry outcome e d w m
      go (some l) m =
          append-Grows json.line_size json.of_entry outcome e l d w m h (fit e l m)
            (faithful.gives_entry e l m)

  -- `change` behind the encoding of what it logs.
  pub change-Leaves :
      (fit : LinesFit json) (outcome : AppendOutcome) (now : ℤ) (op : WalOp) (kind : EntityKind)
      (payload : B) (after : Contents B Job) (s : WorkspaceStore B Job) (d : Disk B)
      → IsRecoverable json faithful s d
      → s.next_seq + 1 < 2 ^ 64
      → Repeats json
          (record { seq = s.next_seq; ts = now; op = op; kind = kind; payload = payload })
          s.contents
          after
      → IsKept json faithful after
      → Leaves s.next_seq (change json outcome now op kind (some payload) after s d)
  unfolding append
  change-Leaves fit outcome now op kind payload after s d inv b rep kept =
      let e : WalEntry B = record {
        seq = s.next_seq;
        ts = now;
        op = op;
        kind = kind;
        payload = payload;
      } in
      subst
        (λ o. Leaves s.next_seq (
          write_wal json outcome e o
            (record s { next_seq = seq_after s.next_seq; contents = after }) d))
        (sym inv.has_wal)
        (logged-Leaves s d e after (append json.line_size json.of_entry outcome e d.log inv.writer)
          inv refl b rep kept (append-Grows_fit fit outcome e d.log inv.writer inv.fits))
