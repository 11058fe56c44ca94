-- ===== src/Document/Store/Server.antt =====
-- What the document service does with the documents that it holds, and what the three operations of
-- `src/document.rs` make of that.
use Prim.Native.String.{String}
use rociadb_core_sdk_rust.Prelude.{
  ℕ, ◌≡◌, sym, ap, ◌∙◌, inl, inr, Option, none, some, List, Result, Action, ok, err,
}
use rociadb_core_sdk_rust.Error.{Source}
use rociadb_core_sdk_rust.Client.{RociaDbClient}
use rociadb_core_sdk_rust.Client.Service.{Json}
use rociadb_core_sdk_rust.Client.Contract.{Effect, Contract}
use rociadb_core_sdk_rust.Graph.{PutNodeRequest}
use rociadb_core_sdk_rust.Document.{
  Key, DocumentRpcs, PutDocRequest, GetDocRequest, GetDocResponse, DeleteDocRequest,
}
use rociadb_core_sdk_rust.Document.Store.{
  Store, Keeps, Puts, MayPut, Mark, put_mark, delete_mark, PutsOnce,
}

pub PutsOnce-MayPut :
    {T : Type 0} {a b : Store T} {mark : Mark} {key : Key} {o : Option T}
    → PutsOnce mark key o a b
    → MayPut mark key o a b
PutsOnce-MayPut (inl p) = inr p
PutsOnce-MayPut (inr (was, f)) = inl f

module _ {T : Type 0} {a b c : Store T} where
  pub Keeps-trans : Keeps a b → Keeps b c → Keeps a c
  Keeps-trans (f, old) (g, older) = (λ k. g k ∙ f k, λ m u. old m (older m u))

  module _ {mark : Mark} {key : Key} {o : Option T} where
    pub Keeps-Puts : Keeps a b → Puts mark key o b c → Puts mark key o a c
    Keeps-Puts (f, old) (is, other, new) = (
      is,
      λ k apart. other k apart ∙ f k,
      λ m u. elim (new m u) [ inl before ↦ inl (old m before) | inr own ↦ inr own ],
    )

    pub Puts-Keeps : Puts mark key o a b → Keeps b c → Puts mark key o a c
    Puts-Keeps (is, other, new) (f, old) =
        (f key ∙ is, λ k apart. f k ∙ other k apart, λ m u. new m (old m u))

    Puts-Puts : Puts mark key o a b → Puts mark key o b c → Puts mark key o a c
    Puts-Puts (_, before, new) (is, after, newer) = (
      is,
      λ k apart. after k apart ∙ before k apart,
      λ m u. elim (newer m u) [ inl between ↦ new m between | inr own ↦ inr own ],
    )

    pub MayPut-Puts : MayPut mark key o a b → Puts mark key o b c → Puts mark key o a c
    MayPut-Puts (inl f) p = Keeps-Puts f p
    MayPut-Puts (inr p) q = Puts-Puts p q

    -- A write that is repeated under its mark takes effect once.
    pub MayPut-PutsOnce : MayPut mark key o a b → PutsOnce mark key o b c → PutsOnce mark key o a c
    MayPut-PutsOnce m (inl p) = inl (MayPut-Puts m p)
    MayPut-PutsOnce (inl f) (inr (was, g)) = inr (f.1 mark was, Keeps-trans f g)
    MayPut-PutsOnce (inr p) (inr (was, g)) = inl (Puts-Keeps p g)

    pub PutsOnce-Keeps : PutsOnce mark key o a b → Keeps b c → PutsOnce mark key o a c
    PutsOnce-Keeps (inl p) g = inl (Puts-Keeps p g)
    PutsOnce-Keeps (inr (was, f)) g = inr (was, Keeps-trans f g)

    pub MayPut-trans : MayPut mark key o a b → MayPut mark key o b c → MayPut mark key o a c
    MayPut-trans (inl f) (inl g) = inl (Keeps-trans f g)
    MayPut-trans (inr p) (inl g) = inr (Puts-Keeps p g)
    MayPut-trans m (inr p) = inr (MayPut-Puts m p)

    pub Keeps-MayPut : Keeps a b → MayPut mark key o b c → MayPut mark key o a c
    Keeps-MayPut f m = MayPut-trans (inl f) m

    pub Keeps-PutsOnce : Keeps a b → PutsOnce mark key o b c → PutsOnce mark key o a c
    Keeps-PutsOnce f p = MayPut-PutsOnce (inl f) p

-- The documents as a world holds them, and the effects of the RPCs on them.
module _ {W : Type 0} (docs : W → Store (List ℕ)) where
  abbrev pub write_effect : {Resp : Type 0} → Mark → Key → Option (List ℕ) → Effect W Resp
  write_effect mark key o = record {
    Done = λ w _ w'. PutsOnce mark key o (docs w) (docs w');
    Tried = λ w w'. MayPut mark key o (docs w) (docs w');
    then_done = MayPut-PutsOnce;
    then_tried = MayPut-trans;
  }

  abbrev pub read_effect : Key → Effect W GetDocResponse
  read_effect key = record {
    Done = λ w response w'. ((docs w).at key ≡ some response.json) × Keeps (docs w) (docs w');
    Tried = λ w w'. Keeps (docs w) (docs w');
    then_done = λ kept (is, still). (sym (kept.0 key) ∙ is, Keeps-trans kept still);
    then_tried = Keeps-trans;
  }

  abbrev pub no_effect : {Resp : Type 0} → Effect W Resp
  no_effect = record {
    Done = λ w _ w'. Keeps (docs w) (docs w');
    Tried = λ w w'. Keeps (docs w) (docs w');
    then_done = Keeps-trans;
    then_tried = Keeps-trans;
  }

-- A service that stores documents, and recognizes a write under a request id that it has a mark of,
-- for the same operation and document: that one succeeds and changes nothing. A write that failed, or whose deadline is over, may have been
-- carried out; writing a node, refreshing the token and drawing a UUID keep every document.
pub record DocumentServer {W : Type 0} (client : RociaDbClient W) (rpcs : DocumentRpcs W)
    (uuid : Action W String) : Type 0 where
  pub docs : W → Store (List ℕ)
  pub puts :
      (d : PutDocRequest)
      → Contract client rpcs.put_doc d (
          write_effect docs
            (put_mark
              (record { tenant_id = d.tenant_id; collection = d.collection; id = d.id })
              d.request_id)
            (record { tenant_id = d.tenant_id; collection = d.collection; id = d.id })
            (some d.json))
  pub gets :
      (g : GetDocRequest)
      → Contract client rpcs.get_doc g (
          read_effect docs
            (record { tenant_id = g.tenant_id; collection = g.collection; id = g.id }))
  pub deletes :
      (d : DeleteDocRequest)
      → Contract client rpcs.delete_doc d (
          write_effect docs
            (delete_mark
              (record { tenant_id = d.tenant_id; collection = d.collection; id = d.id })
              d.request_id)
            (record { tenant_id = d.tenant_id; collection = d.collection; id = d.id })
            none)
  pub nodes : (n : PutNodeRequest) → Contract client rpcs.put_node n (no_effect docs)
  pub draws : (w : W) → Keeps (docs w) (docs (uuid w).1)

-- `serde_json` reads back what it wrote.
abbrev pub ReadsBack : {T : Type 0} → Json T → Type 0
ReadsBack {T} codec =
    (v : T) (bytes : List ℕ) → codec.to_vec v ≡ ok bytes → codec.from_slice bytes ≡ ok v

abbrev pub ok_of : {A : Type 0} → Result Source A → Option A
ok_of (ok a) = some a
ok_of (err e) = none

-- The documents of a world, decoded.
abbrev pub decoded : {T : Type 0} → Json T → Option (List ℕ) → Option T
decoded codec none = none
decoded codec (some bytes) = ok_of (codec.from_slice bytes)

abbrev pub documents : {W T : Type 0} → Json T → (W → Store (List ℕ)) → W → Store T
documents codec docs w = record {
  at = λ key. decoded codec ((docs w).at key);
  used = (docs w).used;
}

module _ {W T : Type 0} (codec : Json T) (docs : W → Store (List ℕ)) where
  pub Keeps-documents :
      {w w' : W}
      → Keeps (docs w) (docs w')
      → Keeps (documents codec docs w) (documents codec docs w')
  Keeps-documents (kept, old) = (λ k. ap (decoded codec) (kept k), old)

  pub Puts-documents :
      {w w' : W} {mark : Mark} {key : Key} {o : Option (List ℕ)} {o' : Option T}
      → decoded codec o ≡ o'
      → Puts mark key o (docs w) (docs w')
      → Puts mark key o' (documents codec docs w) (documents codec docs w')
  Puts-documents means (is, other, new) =
      (ap (decoded codec) is ∙ means, λ k apart. ap (decoded codec) (other k apart), new)

  pub MayPut-documents :
      {w w' : W} {mark : Mark} {key : Key} {o : Option (List ℕ)} {o' : Option T}
      → decoded codec o ≡ o'
      → MayPut mark key o (docs w) (docs w')
      → MayPut mark key o' (documents codec docs w) (documents codec docs w')
  MayPut-documents means (inl kept) = inl (Keeps-documents kept)
  MayPut-documents means (inr p) = inr (Puts-documents means p)

  pub PutsOnce-documents :
      {w w' : W} {mark : Mark} {key : Key} {o : Option (List ℕ)} {o' : Option T}
      → decoded codec o ≡ o'
      → PutsOnce mark key o (docs w) (docs w')
      → PutsOnce mark key o' (documents codec docs w) (documents codec docs w')
  PutsOnce-documents means (inl p) = inl (Puts-documents means p)
  PutsOnce-documents means (inr (was, kept)) = inr (was, Keeps-documents kept)
