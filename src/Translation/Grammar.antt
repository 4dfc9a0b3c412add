-- ===== src/Translation/Grammar.antt =====
-- translation.py: the order in which the frames of a stream may come, as a reader of the stream
-- would check it.
use fastapi_agent_protocol.Base.{
  ℕ, ◌≡◌, refl, ap, sym, ==_self, ◌≢◌, ◌∙◌, List, [], ◌∷◌, ◌++◌, arith, leb, if◌then◌else◌,
  contains, ◌==◌, nat_eq,
}
use fastapi_agent_protocol.Base.Dict.{Dict, keys}
use fastapi_agent_protocol.Base.{String, Option}
use fastapi_agent_protocol.Value.{Value}
use fastapi_agent_protocol.Emitter.{
  Frame, message_start, text_delta, block_start, block_delta, block_finish, message_finish,
  BlockState, Emitter,
}
use fastapi_agent_protocol.Translation.{insert_block, sort_blocks, finish_frames, finish_emitter}

-- Between messages; in a message whose blocks were begun in this order; at the end of a message,
-- these blocks being still to be finished, in this order; or out of order.
pub data Reading : Type 0 where
  idle : Reading
  streaming finishing : List ℕ → Reading
  broken : Reading

abbrev insert_sorted : ℕ → List ℕ → List ℕ
insert_sorted i [] = i ∷ []
insert_sorted i (j ∷ rest) = if leb i j then i ∷ j ∷ rest else j ∷ insert_sorted i rest

abbrev sorted : List ℕ → List ℕ
sorted [] = []
sorted (i ∷ rest) = insert_sorted i (sorted rest)

-- The next block to finish has to be the first of those that are left.
abbrev finish_first : ℕ → List ℕ → Reading
finish_first i [] = broken
finish_first i (j ∷ rest) = if i == j then finishing rest else broken

abbrev end_message : List ℕ → Reading
end_message [] = idle
end_message (i ∷ rest) = broken

-- A message starts when none is open. A block starts once, gets its fragments after that, and all
-- blocks finish once, in the order of their indices, at the end of the message.
abbrev pub accept : Reading → Frame → Reading
accept idle (message_start r id) = streaming []
accept (streaming bs) (text_delta i text) = streaming bs
accept (streaming bs) (block_start i id name) =
    if contains bs i then broken else streaming (bs ++ i ∷ [])
accept (streaming bs) (block_delta i id name args) = if contains bs i then streaming bs else broken
accept (streaming bs) (block_finish i id name args) = finish_first i (sorted bs)
accept (streaming bs) (message_finish usage) = end_message bs
accept (finishing bs) (block_finish i id name args) = finish_first i bs
accept (finishing bs) (message_finish usage) = end_message bs
accept _ _ = broken

abbrev pub read : Reading → List Frame → Reading
read r [] = r
read r (frame ∷ frames) = read (accept r frame) frames

pub read-append : (r : Reading) (xs ys : List Frame) → read r (xs ++ ys) ≡ read (read r xs) ys
read-append r [] ys = refl
read-append r (x ∷ xs) ys = read-append (accept r x) xs ys

keys-insert_block :
    (i : ℕ) (state : BlockState) (d : Dict ℕ BlockState)
    → keys (insert_block i state d) ≡ insert_sorted i (keys d)
unfolding insert_block
keys-insert_block i state [] = refl
keys-insert_block i state ((j, other) ∷ d) = ground (arith, keys-insert_block i state d)

keys-sort_blocks : (d : Dict ℕ BlockState) → keys (sort_blocks d) ≡ sorted (keys d)
unfolding sort_blocks
keys-sort_blocks [] = refl
keys-sort_blocks ((i, state) ∷ d) =
    keys-insert_block i state (sort_blocks d) ∙ ap (insert_sorted i) (keys-sort_blocks d)

finish_first_self : (i : ℕ) (bs : List ℕ) → finish_first i (i ∷ bs) ≡ finishing bs
finish_first_self i bs = rw (==_self i)

insert_sorted-ne-nil : (i : ℕ) (bs : List ℕ) → insert_sorted i bs ≢ []
insert_sorted-ne-nil i [] e = cc
insert_sorted-ne-nil i (j ∷ bs) e = ground arith

end_message-idle : (bs : List ℕ) → [] ≡ sorted bs → end_message bs ≡ idle
end_message-idle [] e = refl
end_message-idle (i ∷ bs) e = absurd (insert_sorted-ne-nil i (sorted bs) (sym e))

module _ (loads : String → Option Value) where
  read-finish_frames :
      (d : Dict ℕ BlockState) (usage : Value)
      → read (finishing (keys d)) (finish_frames loads d ++ message_finish usage ∷ []) ≡ idle
  unfolding finish_frames
  read-finish_frames [] usage = refl
  read-finish_frames ((i, state) ∷ d) usage =
      ap (λ r. read r (finish_frames loads d ++ message_finish usage ∷ []))
        (finish_first_self i (keys d))
      ∙ read-finish_frames d usage

  read-finish_sorted :
      (bs : List ℕ) (d : Dict ℕ BlockState) (usage : Value)
      → keys d ≡ sorted bs
      → read (streaming bs) (finish_frames loads d ++ message_finish usage ∷ []) ≡ idle
  unfolding finish_frames
  read-finish_sorted bs [] usage e = end_message-idle bs e
  read-finish_sorted bs ((i, state) ∷ d) usage e =
      ap (λ r. read r (finish_frames loads d ++ message_finish usage ∷ []))
        (ap (finish_first i) (sym e) ∙ finish_first_self i (keys d))
      ∙ read-finish_frames d usage

  -- Finishing an open message, whatever its blocks, brings the stream between messages.
  pub read-finish_emitter :
      (usage : Value) (e : Emitter)
      → read (streaming (keys e.blocks)) (finish_emitter loads usage e).1 ≡ idle
  unfolding finish_emitter
  read-finish_emitter usage e =
      read-finish_sorted (keys e.blocks) (sort_blocks e.blocks) _ (keys-sort_blocks e.blocks)
