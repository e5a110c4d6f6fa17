-- ===== src/Core/Persist.antt =====
-- Saving and loading: the writers and readers of core.py.
use mathlib.Core.Path.{subst}
use spark_rapids_ml.Base.{String, ◌≡◌, refl, sym, ◌∙◌, Option, none, some, eq_refl}
use spark_rapids_ml.Py.{Result, ok, err, other_error, bind, ok-injective}
use spark_rapids_ml.Py.Dict.{Dict, get, put, get-put}
use spark_rapids_ml.Py.Value.{Value}
use spark_rapids_ml.Params.Spark.{SparkParams}
use spark_rapids_ml.Params.Values.{Instance}
use spark_rapids_ml.Utils.Partitions.{Codec, IsFaithful}
use spark_rapids_ml.Models.Rows.{Attribute, Algorithm, Fitted, algorithm_of, fit_row, construct}
use spark_rapids_ml.Models.RowsLaws.{construct-fit_row}

-- DefaultParamsWriter and DefaultParamsReader of pyspark, as far as they save and restore params.
pub record ParamsIo {F : Type 0} (P : SparkParams F) : Type 1 where
  pub Saved : Type 0
  pub save_params : P.State → Saved
  pub get_and_set_params : P.State → Saved → Result P.State

-- Params that were saved are restored into an object that declares the same params.
pub record IsRestored {F : Type 0} {P : SparkParams F} (I : ParamsIo P) : Type 0 where
  pub get-restored :
      (s fresh : P.State)
      → ((k : String) → P.has_param fresh k ≡ P.has_param s k)
      → (s' : P.State) × (I.get_and_set_params fresh (I.save_params s) ≡ ok s')
        × ((k : String) → P.get s' k ≡ P.get s k)

-- `_CumlModel`: its params, and `_model_attributes`.
pub record Model {F : Type 0} (P : SparkParams F) : Type 0 where
  pub own : Instance P
  pub model_attributes : Dict (Attribute F)

-- cls(**attributes), where `make` makes the params of the model.
unfoldable pub make_model :
    {F : Type 0} {P : SparkParams F}
    → Algorithm
    → (Dict (Attribute F) → Result (Instance P))
    → Dict (Attribute F)
    → Result (Model P)
make_model a make kwargs = bind (construct a kwargs) (λ attributes.
    bind (make attributes) (λ own. ok (record { own = own; model_attributes = attributes })))

module _ {F : Type 0} {P : SparkParams F} (I : ParamsIo P) where
  pub record Metadata : Type 0 where
    pub params : I.Saved
    pub cuml_params : Dict (Value F)
    pub num_workers : Value F

  -- The metadata and the text files, by their paths. `M` is the type of texts.
  pub record Files (M : Type 0) : Type 0 where
    pub metadata : Dict Metadata
    pub texts : Dict M

  abbrev pub metadata_of : Instance P → Metadata
  metadata_of s = record {
    params = I.save_params s.spark;
    cuml_params = s.cuml;
    num_workers = s.num_workers;
  }

  -- From the metadata on, into a new instance.
  unfoldable pub restore : Instance P → Metadata → Result (Instance P)
  restore fresh m =
      bind (I.get_and_set_params fresh.spark m.params)
        (λ spark. ok (record { spark = spark; cuml = m.cuml_params; num_workers = m.num_workers }))

  abbrev pub file {ℓ} : {A : Type ℓ} → Option A → Result A
  file none = err other_error
  file (some a) = ok a

  module _ {M : Type 0} where
    -- _CumlEstimatorWriter.saveImpl
    unfoldable pub save_estimator : String → Instance P → Files M → Files M
    save_estimator path s files = record {
      metadata = put files.metadata path (metadata_of s);
      texts = files.texts;
    }

    -- _CumlEstimatorReader.load, where `fresh` is what the class makes of no arguments
    unfoldable pub load_estimator : String → Instance P → Files M → Result (Instance P)
    unfolding restore
    load_estimator path fresh files = bind (file (get files.metadata path)) (restore fresh)

    module _ (J : Codec M (Dict (Attribute F))) (join : String → String → String) where
      -- _CumlModelWriter.saveImpl
      unfoldable pub save_model : String → Model P → Files M → Files M
      save_model path model files = record {
        metadata = put files.metadata path (metadata_of model.own);
        texts = put files.texts (join path "data") (J.dumps model.model_attributes);
      }

      -- _CumlModelReader.load, where `make` is what the constructor of the class does besides
      unfoldable pub load_model :
          String
          → Algorithm
          → (Dict (Attribute F) → Result (Instance P))
          → Files M
          → Result (Model P)
      unfolding restore make_model
      load_model path a make files = bind (file (get files.metadata path)) (λ m.
          bind (bind (file (get files.texts (join path "data"))) J.loads) (λ attributes.
            bind (make_model a make attributes)
              (λ fresh. bind (restore fresh.own m) (λ own. ok (record fresh { own = own })))))

  -- The same params and values as `s`.
  abbrev pub Restores : Instance P → Instance P → Type 0
  Restores s s' =
      (s'.cuml ≡ s.cuml)
      × (s'.num_workers ≡ s.num_workers)
      × ((k : String) → P.get s'.spark k ≡ P.get s.spark k)

  abbrev pub SameParams : Instance P → Instance P → Type 0
  SameParams s fresh = (k : String) → P.has_param fresh.spark k ≡ P.has_param s.spark k

  restore-Restores :
      (s fresh : Instance P)
      → IsRestored I
      → SameParams s fresh
      → (s' : Instance P) × (restore fresh (metadata_of s) ≡ ok s') × Restores s s'
  unfolding restore
  restore-Restores s fresh R h =
      let (spark, p, q) = R.get-restored s.spark fresh.spark h in
      (record { spark = spark; cuml = s.cuml; num_workers = s.num_workers }, rw p, (refl, refl, q))

  -- An estimator that is saved and loaded again has the cuML params and the number of workers that
  -- it had, and its Spark params are read as before.
  pub load-save_estimator :
      {M : Type 0} (path : String) (s fresh : Instance P) (files : Files M)
      → IsRestored I
      → SameParams s fresh
      → (s' : Instance P) × (load_estimator path fresh (save_estimator path s files) ≡ ok s')
        × Restores s s'
  unfolding load_estimator save_estimator
  load-save_estimator path s fresh files R h =
      rw (get-put files.metadata path path (metadata_of s), eq_refl) (restore-Restores s fresh R h)

  construct-construct :
      (f : Fitted F) (attributes : Dict (Attribute F))
      → construct (algorithm_of f) (fit_row f) ≡ ok attributes
      → construct (algorithm_of f) attributes ≡ ok attributes
  construct-construct f attributes e =
      let (_, _, (made, first, _, again)) = construct-fit_row f in
      let same : made ≡ attributes = ok-injective (sym first ∙ e) in
      subst (λ d. construct (algorithm_of f) d ≡ ok d) same again

  -- A model with the attributes of a fit, of any of the five classes, that is saved and loaded has the
  -- same attributes again: the lists, matrices, numbers and texts. It has the cuML params and the
  -- number of workers that it had, and its Spark params are read as before. Assumed: the rest of the
  -- class's constructor returns for these attributes, and makes an object that declares the same
  -- params; the attributes are read back from json as they were written, and pyspark restores params.
  pub load-save_model :
      {M : Type 0} (J : Codec M (Dict (Attribute F))) (join : String → String → String)
      (path : String) (f : Fitted F) (model : Model P) (fresh : Instance P)
      (make : Dict (Attribute F) → Result (Instance P)) (files : Files M)
      → IsRestored I
      → IsFaithful J
      → construct (algorithm_of f) (fit_row f) ≡ ok model.model_attributes
      → make model.model_attributes ≡ ok fresh
      → SameParams model.own fresh
      → (model' : Model P) × (load_model J join path
            (algorithm_of f)
            make
            (save_model J join path model files)
          ≡ ok model')
        × (model'.model_attributes ≡ model.model_attributes)
        × Restores model.own model'.own
  unfolding load_model save_model
  load-save_model J join path f model fresh make files R E made e h =
      let (own, restored, same) = restore-Restores model.own fresh R h in
      (
        record { own = own; model_attributes = model.model_attributes },
        rw
            (
              get-put files.metadata path path (metadata_of model.own),
              get-put files.texts (join path "data") (join path "data")
                  (J.dumps model.model_attributes),
              eq_refl path,
              eq_refl (join path "data"),
              E.loads-dumps model.model_attributes,
              construct-construct f model.model_attributes made,
              e,
              restored,
            )
            refl,
        refl,
        same,
      )
