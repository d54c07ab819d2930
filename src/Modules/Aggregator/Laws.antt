-- ===== src/Modules/Aggregator/Laws.antt =====
-- What the barrier does when every client comes to it once, and when one of them comes again before
-- another has left.
use veloc.Base.{
  ℕ, suc, ◌+◌, ◌<◌, ◌≤◌, ◌≡◌, refl, ap, sym, ◌∙◌, false, Option, none, some, List, [], ◌∷◌, ◌++◌,
  ltb, ◌==◌, ==_iff, append_assoc, append-nil, arith, if_true, if_false, length, length-append,
}
use veloc.Base.Int.{ℤ}
use veloc.Command.{Command, Opcode}
use veloc.Modules.Aggregator.{Round, State, collect, dispatch, process_command, resume}

abbrev pub AreCheckpoints : List Command → Type 0
AreCheckpoints [] = Unit
AreCheckpoints (c ∷ cs) = (c.command ≡ Opcode.checkpoint) × AreCheckpoints cs

split_checkpoints :
    (cs : List Command) (c : Command)
    → AreCheckpoints (cs ++ c ∷ [])
    → AreCheckpoints cs × (c.command ≡ Opcode.checkpoint)
split_checkpoints [] c (e, _) = (tt, e)
split_checkpoints (d ∷ cs) c (e, es) =
    let (first, last) = split_checkpoints cs c es in ((e, first), last)

abbrev pub waiting : List Command → List (Option ℤ)
waiting [] = []
waiting (c ∷ cs) = none ∷ waiting cs

module _ {S : Type 0} (agg_function : List Command → S → ℤ × S)
    (single_function : Command → S → ℤ × S) (max_parallelism : ℕ) where
  -- One checkpoint after the other, each by its own thread: the answers, and the state.
  abbrev pub checkpoints : List Command → State S → List (Option ℤ) × State S
  checkpoints [] st = ([], st)
  checkpoints (c ∷ cs) st =
      let (answer, st') = process_command agg_function single_function max_parallelism c st in
      let (answers, st'') = checkpoints cs st' in (answer ∷ answers, st'')

  le_not_ltb : (a b : ℕ) → b ≤ a → ltb a b ≡ false
  le_not_ltb a b h = ground arith

  neq : (a b : ℕ) → a < b → (a == b) ≡ false
  neq a b h = ground arith

  -- A checkpoint that does not complete its round.
  one_waits :
      (c : Command) (st : State S)
      → c.command ≡ Opcode.checkpoint
      → length st.client_set ≤ max_parallelism
      → suc (length st.checkpoint.cmds) < length st.client_set
      → process_command agg_function single_function max_parallelism c st ≡ (
        none,
        record st { checkpoint = record st.checkpoint { cmds = st.checkpoint.cmds ++ c ∷ [] } },
      )
  unfolding process_command collect dispatch
  one_waits c st e enough few =
      ap (λ o. dispatch agg_function single_function max_parallelism o c st) e
      ∙ (if_false _ _ _ (le_not_ltb max_parallelism _ enough)
          ∙ ap (λ (x : Option ℤ × Round × S). (x.0, record st { checkpoint = x.1; inner = x.2 }))
              (if_false _ _ _ (
                neq (length (st.checkpoint.cmds ++ c ∷ [])) (length st.client_set)
                  (omega (arith, few, length-append st.checkpoint.cmds (c ∷ []))))))

  -- One that does.
  one_completes :
      (c : Command) (st : State S)
      → c.command ≡ Opcode.checkpoint
      → length st.client_set ≤ max_parallelism
      → suc (length st.checkpoint.cmds) ≡ length st.client_set
      → process_command agg_function single_function max_parallelism c st ≡ (
        some (agg_function (st.checkpoint.cmds ++ c ∷ []) st.inner).0,
        record st {
          checkpoint = record {
            cmds = [];
            res = (agg_function (st.checkpoint.cmds ++ c ∷ []) st.inner).0;
          };
          inner = (agg_function (st.checkpoint.cmds ++ c ∷ []) st.inner).1;
        },
      )
  unfolding process_command collect dispatch
  one_completes c st e enough all =
      ap (λ o. dispatch agg_function single_function max_parallelism o c st) e
      ∙ (if_false _ _ _ (le_not_ltb max_parallelism _ enough)
          ∙ ap (λ (x : Option ℤ × Round × S). (x.0, record st { checkpoint = x.1; inner = x.2 }))
              (if_true _ _ _ (
                (==_iff (length (st.checkpoint.cmds ++ c ∷ [])) (length st.client_set)).1
                  (omega (arith, all, length-append st.checkpoint.cmds (c ∷ []))))))

  all_wait :
      (cs : List Command) (st : State S)
      → AreCheckpoints cs
      → length st.client_set ≤ max_parallelism
      → length st.checkpoint.cmds + length cs < length st.client_set
      → checkpoints cs st ≡ (
        waiting cs,
        record st { checkpoint = record st.checkpoint { cmds = st.checkpoint.cmds ++ cs } },
      )
  all_wait [] st _ enough few =
      ap (λ l. ([], record st { checkpoint = record st.checkpoint { cmds = l } }))
        (sym (append-nil st.checkpoint.cmds))
  all_wait (c ∷ cs) st (e, es) enough few =
      let cmds = st.checkpoint.cmds ++ c ∷ [] in
      let next = record st { checkpoint = record st.checkpoint { cmds = cmds } } in
      ap (λ (x : Option ℤ × State S). (x.0 ∷ (checkpoints cs x.1).0, (checkpoints cs x.1).1))
        (one_waits c st e enough (omega (arith, few)))
      ∙ (ap (λ (x : List (Option ℤ) × State S). (none ∷ x.0, x.1))
            (all_wait cs next es enough
              (omega (arith, few, length-append st.checkpoint.cmds (c ∷ []))))
          ∙ ap
              (λ l.
                (waiting (c ∷ cs), record st { checkpoint = record st.checkpoint { cmds = l } }))
              (append_assoc st.checkpoint.cmds (c ∷ []) cs))

  checkpoints-append :
      (cs ds : List Command) (st : State S)
      → checkpoints (cs ++ ds) st ≡ (
        (checkpoints cs st).0 ++ (checkpoints ds (checkpoints cs st).1).0,
        (checkpoints ds (checkpoints cs st).1).1,
      )
  checkpoints-append [] ds st = refl
  checkpoints-append (c ∷ cs) ds st =
      let answered = process_command agg_function single_function max_parallelism c st in
      ap (λ (x : List (Option ℤ) × State S). (answered.0 ∷ x.0, x.1))
        (checkpoints-append cs ds answered.1)

  -- When every client of the node has sent its checkpoint, and no more than can run at once, the
  -- module is called once, with all of them in the order in which they came; the last one is
  -- answered with its result, and the others, which waited, find the same result.
  pub barrier :
      (cs : List Command) (c : Command) (st : State S)
      → AreCheckpoints (cs ++ c ∷ [])
      → length st.client_set ≤ max_parallelism
      → st.checkpoint.cmds ≡ []
      → suc (length cs) ≡ length st.client_set
      → (checkpoints (cs ++ c ∷ []) st ≡ (
        waiting cs ++ some (agg_function (cs ++ c ∷ []) st.inner).0 ∷ [],
        record st {
          checkpoint = record { cmds = []; res = (agg_function (cs ++ c ∷ []) st.inner).0 };
          inner = (agg_function (cs ++ c ∷ []) st.inner).1;
        },
      ))
        × (resume (checkpoints (cs ++ c ∷ []) st).1.checkpoint
            ≡ some (agg_function (cs ++ c ∷ []) st.inner).0)
  unfolding resume
  barrier cs c st all enough none_yet n =
      let (es, e) = split_checkpoints cs c all in
      let whole : st.checkpoint.cmds ++ cs ≡ cs = ap (λ l. l ++ cs) none_yet in
      let met = record st {
        checkpoint = record st.checkpoint { cmds = st.checkpoint.cmds ++ cs };
      } in
      let same =
        checkpoints-append cs (c ∷ []) st
        ∙ (ap
              (λ (x : List (Option ℤ) × State S).
                (x.0 ++ (checkpoints (c ∷ []) x.1).0, (checkpoints (c ∷ []) x.1).1))
              (all_wait cs st es enough (omega (arith, n, ap length none_yet)))
            ∙ (ap (λ (x : Option ℤ × State S). (waiting cs ++ x.0 ∷ [], x.1))
                  (one_completes c met e enough (omega (arith, n, ap length whole)))
                ∙ ap
                    (λ l. (
                      waiting cs ++ some (agg_function (l ++ c ∷ []) st.inner).0 ∷ [],
                      record st {
                        checkpoint = record {
                          cmds = [];
                          res = (agg_function (l ++ c ∷ []) st.inner).0;
                        };
                        inner = (agg_function (l ++ c ∷ []) st.inner).1;
                      },
                    ))
                    whole)) in
      (same, ap (λ (x : List (Option ℤ) × State S). resume x.1.checkpoint) same)
