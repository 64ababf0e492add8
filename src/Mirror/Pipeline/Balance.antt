-- ===== src/Mirror/Pipeline/Balance.antt =====
-- Who owns what of GStreamer's behind `buildPipeline` and `cleanupPipeline`.
use titan_share.Prelude.{
  ℕ, suc, ◌+◌, ◌==◌, ◌≡◌, refl, subst, Bool, true, false, ◌&&◌, ◌||◌, if◌then◌else◌, List, [], ◌∷◌,
  arith,
}
use titan_share.Mirror.Pipeline.{
  Owned, pipeline_ref, appsrc_ref, bus_ref, caps_ref, sink_iterator, gst_error, debug_text,
  signal_watch, GstCall, takes, gives_back, Element, Launch, Gst, Impl, call, call_all,
  set_sink_properties, set_sinks, init_gst, rule_windows, launch, free_error, launch_either,
  cleanup_pipeline, bus_calls, caps_calls, play, find_src, build_pipeline, BusMessage,
  error_message, warning_message, on_bus_message,
}

abbrev owned_index : Owned → ℕ
owned_index pipeline_ref = 0
owned_index appsrc_ref = 1
owned_index bus_ref = 2
owned_index caps_ref = 3
owned_index sink_iterator = 4
owned_index gst_error = 5
owned_index debug_text = 6
owned_index signal_watch = 7

abbrev is_watch : Owned → Bool
is_watch signal_watch = true
is_watch _ = false

-- How often a thing was acquired, and given back.
abbrev pub acquired : Owned → List GstCall → ℕ
acquired o [] = 0
acquired o (takes p ∷ cs) =
    if owned_index o == owned_index p then suc (acquired o cs) else acquired o cs
acquired o (_ ∷ cs) = acquired o cs

abbrev pub given_back : Owned → List GstCall → ℕ
given_back o [] = 0
given_back o (gives_back p ∷ cs) =
    if owned_index o == owned_index p then suc (given_back o cs) else given_back o cs
given_back o (_ ∷ cs) = given_back o cs

-- So many are left to give back.
abbrev pub Owes : Owned → ℕ → Impl → Type 0
Owes o n i = acquired o i.calls ≡ given_back o i.calls + n

-- The members of a receiver that has a pipeline, or has none.
abbrev pub held : Owned → Bool → ℕ
held pipeline_ref b = if b then 1 else 0
held appsrc_ref b = if b then 1 else 0
held _ b = 0

-- The same things are owed, by the same members.
abbrev SameOwed : Owned → Impl → Impl → Type 0
SameOwed o i j =
    (acquired o j.calls ≡ acquired o i.calls)
    × (given_back o j.calls ≡ given_back o i.calls)
    × (j.pipeline ≡ i.pipeline)
    × (j.appsrc ≡ i.appsrc)

set_sink_properties-SameOwed :
    (o : Owned) (e : Element) (i : Impl) → SameOwed o i (set_sink_properties e i)
unfolding set_sink_properties
set_sink_properties-SameOwed o e i = ground arith

set_sinks-SameOwed : (o : Owned) (es : List Element) (i : Impl) → SameOwed o i (set_sinks es i)
unfolding set_sinks
set_sinks-SameOwed o [] i = (refl, refl, refl, refl)
set_sinks-SameOwed o (e ∷ es) i =
    ground
      (arith, set_sinks-SameOwed o es (set_sink_properties e i), set_sink_properties-SameOwed o e i)

rules-SameOwed :
    (o : Owned) (hyprland : Bool) (i : Impl) → SameOwed o i (rule_windows hyprland (init_gst i))
unfolding rule_windows init_gst
rules-SameOwed o true i = ground arith
rules-SameOwed o false i = ground arith

abbrev pipeline_only : Owned → Bool → ℕ
pipeline_only pipeline_ref b = if b then 1 else 0
pipeline_only _ b = 0

-- No launch gives a pipeline and an error at once.
abbrev pub IsPlain : Launch → Type 0
IsPlain l = (l.made && l.error) ≡ false

launch_either-Owes :
    (o : Owned) (g : Gst) (i : Impl)
    → IsPlain g.first
    → IsPlain g.second
    → Owes o 0 i
    → Owes o (pipeline_only o (launch_either g i).pipeline) (launch_either g i)
      × ((launch_either g i).appsrc ≡ i.appsrc)
unfolding launch_either launch free_error
launch_either-Owes pipeline_ref g i p q h = ground arith
launch_either-Owes o g i p q h = ground arith

-- The members are set exactly if the pipeline plays, and what they hold is owed.
abbrev IsOwner : Owned → Bool × Impl → Type 0
IsOwner o r = Owes o (held o r.0) r.1 × (r.1.pipeline ≡ r.0) × (r.1.appsrc ≡ r.0)

IsOwner-if :
    (o : Owned) (l r : Bool × Impl) (b : Bool)
    → (b ≡ true → IsOwner o l)
    → (b ≡ false → IsOwner o r)
    → IsOwner o (if b then l else r)
IsOwner-if o l r true h k = h refl
IsOwner-if o l r false h k = k refl

play-Owes :
    (o : Owned) (g : Gst) (i : Impl)
    → is_watch o ≡ false
    → Owes o (held o true) i
    → i.pipeline ≡ true
    → i.appsrc ≡ true
    → IsOwner o (play g i)
unfolding play cleanup_pipeline
play-Owes pipeline_ref g i nw h p a =
    ground (arith, set_sinks-SameOwed pipeline_ref g.sinks (call_all bus_calls i))
play-Owes o g i nw h p a = ground (arith, set_sinks-SameOwed o g.sinks (call_all bus_calls i))

found-Owes :
    (o : Owned) (i : Impl)
    → Owes o (pipeline_only o true) i
    → Owes o (held o true) (call (takes appsrc_ref) i)
found-Owes pipeline_ref i h = ground arith
found-Owes o i h = ground arith

dropped-Owes :
    (o : Owned) (i : Impl)
    → Owes o (pipeline_only o true) i
    → Owes o (held o false) (call (gives_back pipeline_ref) i)
dropped-Owes pipeline_ref i h = ground arith
dropped-Owes o i h = ground arith

none-Owes : (o : Owned) (i : Impl) → Owes o (pipeline_only o false) i → Owes o (held o false) i
none-Owes pipeline_ref i h = h
none-Owes appsrc_ref i h = h
none-Owes o i h = h

find_src-Owes :
    (o : Owned) (g : Gst) (i : Impl)
    → is_watch o ≡ false
    → Owes o (pipeline_only o true) i
    → i.pipeline ≡ true
    → IsOwner o (find_src g i)
unfolding find_src
find_src-Owes o g i nw h p =
    IsOwner-if o _ _ g.has_src
      (λ _.
        play-Owes o g (record (call (takes appsrc_ref) i) { appsrc = true }) nw (found-Owes o i h) p
          refl)
      (λ _. (dropped-Owes o i h, refl, refl))

launched-Owes :
    (o : Owned) (g : Gst) (j : Impl)
    → is_watch o ≡ false
    → Owes o (pipeline_only o j.pipeline) j
    → j.appsrc ≡ false
    → IsOwner o (if j.pipeline then find_src g j else (false, j))
launched-Owes o g j nw h a =
    IsOwner-if o _ _ j.pipeline
      (λ there. find_src-Owes o g j nw (subst (λ b. Owes o (pipeline_only o b) j) there h) there)
      (λ missing. (none-Owes o j (subst (λ b. Owes o (pipeline_only o b) j) missing h), missing, a))

build_pipeline-Owes :
    (o : Owned) (hyprland : Bool) (g : Gst) (i : Impl)
    → is_watch o ≡ false
    → IsPlain g.first
    → IsPlain g.second
    → Owes o 0 i
    → IsOwner o (build_pipeline hyprland g i)
unfolding build_pipeline
build_pipeline-Owes o hyprland g i nw p q h =
    let j = record (rule_windows hyprland (init_gst i)) { pipeline = false; appsrc = false } in
    let same = rules-SameOwed o hyprland i in
    let (owes, no_src) = launch_either-Owes o g j p q (omega (arith, same.0, same.1, h)) in
    launched-Owes o g (launch_either g j) nw owes no_src

cleanup_pipeline-Owes :
    (o : Owned) (b : Bool) (i : Impl)
    → Owes o (held o b) i
    → i.pipeline ≡ b
    → i.appsrc ≡ b
    → Owes o 0 (cleanup_pipeline i)
unfolding cleanup_pipeline
cleanup_pipeline-Owes pipeline_ref true i h p a = ground arith
cleanup_pipeline-Owes o true i h p a = ground arith
cleanup_pipeline-Owes pipeline_ref false i h p a = ground arith
cleanup_pipeline-Owes o false i h p a = ground arith

-- The watch on the bus that is never removed: one for each source that was found.
abbrev pub leaked : Owned → Gst → ℕ
leaked signal_watch g = if (g.first.made || g.second.made) && g.has_src then 1 else 0
leaked _ g = 0

cleanup_pipeline-watch :
    (n : ℕ) (i : Impl) → Owes signal_watch n i → Owes signal_watch n (cleanup_pipeline i)
unfolding cleanup_pipeline
cleanup_pipeline-watch n i h = ground arith

play-watch : (g : Gst) (i : Impl) → Owes signal_watch 0 i → Owes signal_watch 1 (play g i).1
unfolding play
play-watch g i h =
    let j = set_sinks g.sinks (call_all bus_calls i) in
    let same = set_sinks-SameOwed signal_watch g.sinks (call_all bus_calls i) in
    ground (arith, same, h, cleanup_pipeline-watch 1 (call_all caps_calls j))

find_src-watch :
    (g : Gst) (i : Impl)
    → Owes signal_watch 0 i
    → Owes signal_watch (if g.has_src then 1 else 0) (find_src g i).1
unfolding find_src
find_src-watch g i h =
    ground (arith, h, play-watch g (record (call (takes appsrc_ref) i) { appsrc = true }))

launch_either-made :
    (g : Gst) (i : Impl) → (launch_either g i).pipeline ≡ (g.first.made || g.second.made)
unfolding launch_either launch free_error
launch_either-made g i = ground arith

build_pipeline-watch :
    (hyprland : Bool) (g : Gst) (i : Impl)
    → IsPlain g.first
    → IsPlain g.second
    → Owes signal_watch 0 i
    → Owes signal_watch (leaked signal_watch g) (build_pipeline hyprland g i).1
unfolding build_pipeline
build_pipeline-watch hyprland g i p q h =
    let j = record (rule_windows hyprland (init_gst i)) { pipeline = false; appsrc = false } in
    let same = rules-SameOwed signal_watch hyprland i in
    let (owes, no_src) =
      launch_either-Owes signal_watch g j p q (omega (arith, same.0, same.1, h)) in
    ground (arith, owes, launch_either-made g j, find_src-watch g (launch_either g j))

-- No launch gives a pipeline and an error at once, and all that was acquired before was given back.
-- Whatever else fails, behind `buildPipeline` a pipeline that plays is owed, with its source, once
-- each, and neither where it returns false; behind `cleanupPipeline` neither is. Besides, the signal
-- watch of the bus is owed once where the source was found, behind either, and nothing else is.
pub build-cleanup_balanced :
    (o : Owned) (hyprland : Bool) (g : Gst) (i : Impl)
    → IsPlain g.first
    → IsPlain g.second
    → Owes o 0 i
    → Owes o (held o (build_pipeline hyprland g i).0 + leaked o g) (build_pipeline hyprland g i).1
      × Owes o (leaked o g) (cleanup_pipeline (build_pipeline hyprland g i).1)
build-cleanup_balanced signal_watch hyprland g i p q h =
    let owes = build_pipeline-watch hyprland g i p q h in
    (
      omega (arith, owes),
      cleanup_pipeline-watch (leaked signal_watch g) (build_pipeline hyprland g i).1 owes,
    )
build-cleanup_balanced o hyprland g i p q h =
    let (owes, there, src) = build_pipeline-Owes o hyprland g i refl p q h in
    (omega (arith, owes), cleanup_pipeline-Owes o _ (build_pipeline hyprland g i).1 owes there src)

-- A message of the bus leaves nothing to give back.
on_bus_message-Owes :
    (o : Owned) (m : BusMessage) (n : ℕ) (i : Impl) → Owes o n i → Owes o n (on_bus_message m i)
unfolding on_bus_message
on_bus_message-Owes o (error_message err dbg) n i h = ground arith
on_bus_message-Owes o (warning_message err dbg) n i h = ground arith
on_bus_message-Owes o m n i h = h
