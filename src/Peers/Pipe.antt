-- ===== src/Peers/Pipe.antt =====
-- What the way from one end to the other is for: a bag of items that wait for the executor, and
-- behind it a queue.
use mathlib.Core.Path.{subst}
use mathlib.Core.List.{Perm, perm_middle}
use mathlib.Core.List.Perm
use grpc_over_ayame.Base.{◌≡◌, sym, ap, ◌∙◌, List, [], ◌∷◌, ◌++◌, append_assoc}
use grpc_over_ayame.Peers.{Item}

pub record Pipe : Type 0 where
  -- The items that the other end's WebRTC has taken, those that the executor has put on their way,
  -- and those that wait for it.
  pub taken : List Item
  pub flying : List Item
  pub waiting : List Item

abbrev pub empty_pipe : Pipe
empty_pipe = record { taken = []; flying = []; waiting = [] }

abbrev pub give : Item → Pipe → Pipe
give i p = record p { waiting = p.waiting ++ i ∷ [] }

-- The moves, with the items given. The executor puts any item that waits behind those on their way;
-- from there no move drops an item or takes one out of turn.
pub data Moves : List Item → Pipe → Type 0 where
  at_rest : Moves [] empty_pipe
  gives :
      {given : List Item} {p : Pipe} (i : Item) → Moves given p → Moves (given ++ i ∷ []) (give i p)
  starts :
      {given : List Item} {p : Pipe} (before : List Item) (i : Item) (behind : List Item)
      → p.waiting ≡ before ++ i ∷ behind
      → Moves given p
      → Moves given (record p { flying = p.flying ++ i ∷ []; waiting = before ++ behind })
  takes :
      {given : List Item} {p : Pipe} (i : Item) (rest : List Item)
      → p.flying ≡ i ∷ rest
      → Moves given p
      → Moves given (record p { taken = p.taken ++ i ∷ []; flying = rest })

abbrev pub all_items : Pipe → List Item
all_items p = p.taken ++ (p.flying ++ p.waiting)

-- Whatever the moves, the items given are those taken, on their way and waiting, each once.
pub Moves-Perm : {given : List Item} {p : Pipe} → Moves given p → Perm given (all_items p)
Moves-Perm at_rest = Perm.rfl
Moves-Perm (gives {given} {p} i m) =
    subst (Perm (given ++ i ∷ []))
      (append_assoc p.taken (p.flying ++ p.waiting) (i ∷ [])
        ∙ ap (λ (is : List Item). p.taken ++ is) (append_assoc p.flying p.waiting (i ∷ [])))
      (Perm.append_right (i ∷ []) (Moves-Perm m))
Moves-Perm (starts {given} {p} before i behind e m) =
    let now : Perm (before ++ i ∷ behind) (i ∷ (before ++ behind)) = perm_middle before behind in
    let moved : Perm (p.flying ++ p.waiting) ((p.flying ++ i ∷ []) ++ (before ++ behind)) =
      subst (Perm (p.flying ++ p.waiting)) (sym (append_assoc p.flying (i ∷ []) (before ++ behind)))
        (Perm.append_left p.flying (subst (λ ws. Perm ws (i ∷ (before ++ behind))) (sym e) now)) in
    Perm.trans (Moves-Perm m) (Perm.append_left p.taken moved)
Moves-Perm (takes {given} {p} i rest e m) =
    subst (Perm given)
      (ap (λ (is : List Item). p.taken ++ (is ++ p.waiting)) e
        ∙ sym (append_assoc p.taken (i ∷ []) (rest ++ p.waiting)))
      (Moves-Perm m)
