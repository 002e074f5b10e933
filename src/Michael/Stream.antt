-- ===== src/Michael/Stream.antt =====
-- The buffered update of src/michael.c against one that takes its input byte by byte.
use u.Common.{
  ℕ, ◌+◌, ◌%◌, ◌<◌, ◌≡◌, refl, List, [], ◌∷◌, ◌++◌, length, length-append, ◌==◌, if◌then◌else◌,
  deserialize_le32, arith,
}
use u.Michael.{MichaelContext, michael_block, mix, fill_pending, update_words, michael_update}

-- One byte is appended to the pending ones; the fourth completes a word.
pub feed : MichaelContext → ℕ → MichaelContext
feed context b =
    let pending = context.pending ++ (b ∷ []) in
    if length pending == 4
    then record (michael_block context (deserialize_le32 pending)) { pending = [] }
    else record context { pending = pending }

unfoldable pub feed_all : MichaelContext → List ℕ → MichaelContext
unfolding feed
feed_all context [] = context
feed_all context (b ∷ bytes) = feed_all (feed context b) bytes

pub feed_all-append :
    (c : MichaelContext) (xs ys : List ℕ) → feed_all c (xs ++ ys) ≡ feed_all (feed_all c xs) ys
unfolding feed_all
feed_all-append c [] ys = refl
feed_all-append c (x ∷ xs) ys = feed_all-append (feed c x) xs ys

update_words-feed_all :
    (bytes : List ℕ) (l r : ℕ)
    → let c : MichaelContext = record { left = l; right = r; pending = [] } in
      update_words c bytes ≡ feed_all c bytes
unfolding update_words feed_all michael_block
update_words-feed_all [] l r = refl
update_words-feed_all (a ∷ []) l r = refl
update_words-feed_all (a ∷ b ∷ []) l r = refl
update_words-feed_all (a ∷ b ∷ c ∷ []) l r = refl
update_words-feed_all (a ∷ b ∷ c ∷ d ∷ bytes) l r =
    let halves = mix l r (deserialize_le32 (a ∷ b ∷ c ∷ d ∷ [])) in
    update_words-feed_all bytes halves.0 halves.1

fill_pending-full :
    (a b c d : ℕ) (bytes : List ℕ)
    → fill_pending (a ∷ b ∷ c ∷ d ∷ []) bytes ≡ ((a ∷ b ∷ c ∷ d ∷ []), bytes)
unfolding fill_pending
fill_pending-full a b c d [] = refl
fill_pending-full a b c d (x ∷ bytes) = refl

michael_update-parts :
    (l r : ℕ) (p bytes : List ℕ)
    → length p < 4
    → let c : MichaelContext = record { left = l; right = r; pending = p } in
      michael_update c bytes ≡ feed_all c bytes
unfolding michael_update feed_all fill_pending michael_block
michael_update-parts l r [] bytes h = update_words-feed_all bytes l r
michael_update-parts l r (p ∷ []) [] h = refl
michael_update-parts l r (p ∷ []) (a ∷ []) h = refl
michael_update-parts l r (p ∷ []) (a ∷ b ∷ []) h = refl
michael_update-parts l r (p ∷ []) (a ∷ b ∷ c ∷ bytes) h =
    rw (fill_pending-full p a b c bytes) (update_words-feed_all bytes _ _)
michael_update-parts l r (p ∷ q ∷ []) [] h = refl
michael_update-parts l r (p ∷ q ∷ []) (a ∷ []) h = refl
michael_update-parts l r (p ∷ q ∷ []) (a ∷ b ∷ bytes) h =
    rw (fill_pending-full p q a b bytes) (update_words-feed_all bytes _ _)
michael_update-parts l r (p ∷ q ∷ s ∷ []) [] h = refl
michael_update-parts l r (p ∷ q ∷ s ∷ []) (a ∷ bytes) h =
    rw (fill_pending-full p q s a bytes) (update_words-feed_all bytes _ _)
michael_update-parts l r (p ∷ q ∷ s ∷ t ∷ u) bytes h = absurd (omega arith)

-- The buffered update of the source, word by word with the left-over bytes pending, gives the same
-- context as feeding the bytes one at a time, whatever is pending when it starts (at most three
-- bytes).
pub michael_update-feed_all :
    (c : MichaelContext) (bytes : List ℕ)
    → length c.pending < 4
    → michael_update c bytes ≡ feed_all c bytes
michael_update-feed_all c bytes h = michael_update-parts c.left c.right c.pending bytes h

feed-pending :
    (c : MichaelContext) (b : ℕ)
    → length c.pending < 4
    → length (feed c b).pending ≡ (length c.pending + 1) % 4
unfolding feed
feed-pending c b h = ground (arith, length-append c.pending (b ∷ []))

-- What is pending is what the number of bytes leaves over.
pub feed_all-pending :
    (c : MichaelContext) (bytes : List ℕ)
    → length c.pending < 4
    → length (feed_all c bytes).pending ≡ (length c.pending + length bytes) % 4
unfolding feed_all
feed_all-pending c [] h = omega arith
feed_all-pending c (b ∷ bytes) h = omega (
  arith,
  feed-pending c b h,
  feed_all-pending (feed c b) bytes (omega (arith, feed-pending c b h)),
)

-- Two updates in a row are one update with the bytes joined: the message integrity code does not
-- depend on how its input is cut into buffers.
pub michael_update-append :
    (c : MichaelContext) (xs ys : List ℕ)
    → length c.pending < 4
    → michael_update (michael_update c xs) ys ≡ michael_update c (xs ++ ys)
michael_update-append c xs ys h =
    rw
      (
        michael_update-feed_all c xs h,
        michael_update-feed_all c (xs ++ ys) h,
        feed_all-append c xs ys,
      )
      (michael_update-feed_all (feed_all c xs) ys (omega (arith, feed_all-pending c xs h)))
