-- ===== src/LoopThread/Guard.antt =====
-- `loop_` and the loop that it points to (src/net/EventLoopThread.cc).
use reactor_chat_server.Common.{◌≡◌, ◌≢◌, refl, sym, ap, ◌∙◌, Bool, true, false, not, List, arith}
use reactor_chat_server.Loop.{Task}
use reactor_chat_server.LoopThread.{
  Inner, unborn, built, looping, returned, cleared, ended, Outer, unstarted, waiting, using,
  quitting, joining, joined, EventLoopThread, new_loop_thread, Step, spawned, published,
  start_returns, turns, loop_returns, reset, loop_destroyed, quits, quit_wakes, quits_not, unused,
  joins, Reach, here, next,
}

-- Whether the loop's object exists, whether `loop_` points to it, and whether it has ever done so.
abbrev pub is_alive : Inner → Bool
is_alive unborn = false
is_alive ended = false
is_alive _ = true

abbrev pub is_published : Inner → Bool
is_published looping = true
is_published returned = true
is_published _ = false

abbrev pub is_begun : Inner → Bool
is_begun unborn = false
is_begun built = false
is_begun _ = true

abbrev is_unborn : Inner → Bool
is_unborn unborn = true
is_unborn _ = false

-- Which places of the two threads go together.
abbrev meets : Outer → Inner → Bool
meets unstarted i = is_unborn i
meets waiting i = not (is_unborn i)
meets using i = is_begun i
meets quitting i = is_published i
meets joining i = is_begun i
meets joined i = not (is_alive i)

record Together (x : EventLoopThread) : Type 0 where
  pub pointed : x.pointer ≡ is_published x.inner
  pub met : meets x.outer x.inner ≡ true

-- The steps of the loop's thread, with the owner anywhere.
meets_looping : (o : Outer) → o ≢ quitting → meets o built ≡ true → meets o looping ≡ true
meets_looping unstarted ne h = cc
meets_looping waiting ne h = refl
meets_looping using ne h = refl
meets_looping quitting ne h = refl
meets_looping joining ne h = refl
meets_looping joined ne h = cc

meets_returned : (o : Outer) → meets o looping ≡ true → meets o returned ≡ true
meets_returned unstarted h = cc
meets_returned waiting h = refl
meets_returned using h = refl
meets_returned quitting h = refl
meets_returned joining h = refl
meets_returned joined h = cc

meets_cleared : (o : Outer) → o ≢ quitting → meets o returned ≡ true → meets o cleared ≡ true
meets_cleared unstarted ne h = cc
meets_cleared waiting ne h = refl
meets_cleared using ne h = refl
meets_cleared quitting ne h = absurd (ne refl)
meets_cleared joining ne h = refl
meets_cleared joined ne h = cc

meets_ended : (o : Outer) → meets o cleared ≡ true → meets o ended ≡ true
meets_ended unstarted h = cc
meets_ended waiting h = refl
meets_ended using h = refl
meets_ended quitting h = cc
meets_ended joining h = refl
meets_ended joined h = refl

-- What is known of a loop that `loop_` points to, and of one that is not made yet.
published_begun : (i : Inner) → is_published i ≡ true → is_begun i ≡ true
published_begun i h = ground arith

published_alive : (i : Inner) → is_published i ≡ true → is_alive i ≡ true
published_alive i h = ground arith

unborn_gone : (i : Inner) → is_unborn i ≡ true → not (is_alive i) ≡ true
unborn_gone i h = ground arith

module _ (x : EventLoopThread) (t : Together x) where
  -- The meeting at a known place of either thread.
  at_inner : (i : Inner) → x.inner ≡ i → meets x.outer i ≡ true
  at_inner i e = ap (meets x.outer) (sym e) ∙ t.met

  at_outer : (o : Outer) → x.outer ≡ o → meets o x.inner ≡ true
  at_outer o e = ap (λ p. meets p x.inner) (sym e) ∙ t.met

  pointing : x.pointer ≡ true → is_published x.inner ≡ true
  pointing f = sym t.pointed ∙ f

Step-Together :
    {asks : Task → List Task} {x y : EventLoopThread} → Step asks x y → Together x → Together y
Step-Together {x = x} (spawned e f) t = record {
  pointed = t.pointed ∙ ap is_published f;
  met = refl;
}
Step-Together {x = x} (published e f) t = record {
  pointed = refl;
  met = meets_looping x.outer f (at_inner x t built e);
}
Step-Together {x = x} (start_returns e f) t = record {
  pointed = t.pointed;
  met = published_begun x.inner (pointing x t f);
}
Step-Together {x = x} (turns _ e s) t = record { pointed = t.pointed; met = t.met }
Step-Together {x = x} (loop_returns e f) t = record {
  pointed = t.pointed ∙ ap is_published e;
  met = meets_returned x.outer (at_inner x t looping e);
}
Step-Together {x = x} (reset e f) t = record {
  pointed = refl;
  met = meets_cleared x.outer f (at_inner x t returned e);
}
Step-Together {x = x} (loop_destroyed e) t = record {
  pointed = t.pointed ∙ ap is_published e;
  met = meets_ended x.outer (at_inner x t cleared e);
}
Step-Together {x = x} (quits e f) t = record { pointed = t.pointed; met = pointing x t f }
Step-Together {x = x} (quit_wakes e) t = record {
  pointed = t.pointed;
  met = published_begun x.inner (at_outer x t quitting e);
}
Step-Together {x = x} (quits_not e f) t = record { pointed = t.pointed; met = at_outer x t using e }
Step-Together {x = x} (unused e) t = record {
  pointed = t.pointed;
  met = unborn_gone x.inner (at_outer x t unstarted e);
}
Step-Together {x = x} (joins e f) t = record {
  pointed = t.pointed;
  met = ap (λ i. not (is_alive i)) f;
}

Reach-Together :
    (asks : Task → List Task) {x : EventLoopThread} → Reach asks new_loop_thread x → Together x
unfolding new_loop_thread
Reach-Together asks here = record { pointed = refl; met = refl }
Reach-Together asks (next r s) = Step-Together s (Reach-Together asks r)

-- What the mutex and the order of the steps guard.
pub record IsGuarded (x : EventLoopThread) : Type 0 where
  pub publication : x.pointer ≡ is_published x.inner
  pub pointed : x.pointer ≡ true → is_alive x.inner ≡ true
  pub held : x.outer ≡ quitting → is_alive x.inner ≡ true
  pub returned : x.outer ≡ using → is_begun x.inner ≡ true
  pub over : x.outer ≡ joined → is_alive x.inner ≡ false

-- In every history of an EventLoopThread: loop_ is not null exactly from its publishing to its
-- reset, and then the loop exists; while the destructor is between the two halves of quit the loop
-- exists; once startLoop has returned the loop has been published; and behind the destructor there
-- is no loop.
pub Reach-IsGuarded :
    (asks : Task → List Task) {x : EventLoopThread} → Reach asks new_loop_thread x → IsGuarded x
Reach-IsGuarded asks {x} r =
    let t = Reach-Together asks r in
    record {
      publication = t.pointed;
      pointed = λ e. published_alive x.inner (pointing x t e);
      held = λ e. published_alive x.inner (at_outer x t quitting e);
      returned = λ e. at_outer x t using e;
      over = λ e. ground (arith, at_outer x t joined e);
    }
