-- ===== src/Backends/Consul/Laws.antt =====
-- backends/consul/consul_api.go against the laws of a backend.
use consul_scheduler.Prelude.{String, ◌≡◌, refl, ◌≢◌, none, some, if◌then◌else◌, str_eq, lookup}
use consul_scheduler.Api.Types.{Cluster, Deployment, Service}
use consul_scheduler.Api.Results.{ok}
use Prim.Native.String.{◌++◌ as str_append}
use text.Mathlib.TextLemmas.{append_cancel_left}
use consul_scheduler.Api.StoreLaws.{Stores, StoreLaws, Stores-reads}
use consul_scheduler.Backends.Consul.Codec.{
  Blob, text_at, number_at, texts_at, encode_cluster, encode_deployment, encode_service,
  decode_cluster, decode_deployment, decode_service,
}
use consul_scheduler.Backends.Consul.Store.{ConsulClient, ConsulApi, under, put, get, read}
use consul_scheduler.Backends.Consul.Interface.{consul_api}

-- What the backend relies on of Consul's key/value store: a value that was put with no error is
-- read back, and a put leaves the other keys alone.
pub record KvLaws {K : Type 0} (client : ConsulClient K) : Type 0 where
  pub get_put :
      (k : String) (b : Blob) (s : K)
      → (client.kv_put k b s).1 ≡ none
      → client.kv_get k (client.kv_put k b s).0 ≡ ok (some b)
  pub get_put_other :
      (k j : String) (b : Blob) (s : K)
      → k ≢ j
      → client.kv_get j (client.kv_put k b s).0 ≡ client.kv_get j s

-- A struct is what is read of the object of its tags.
decode-encode_cluster : (c : Cluster) → decode_cluster (encode_cluster c) ≡ c
unfolding decode_cluster encode_cluster text_at texts_at lookup str_eq
decode-encode_cluster c = refl

decode-encode_deployment : (d : Deployment) → decode_deployment (encode_deployment d) ≡ d
unfolding decode_deployment encode_deployment text_at number_at lookup str_eq
decode-encode_deployment d = refl

decode-encode_service : (v : Service) → decode_service (encode_service v) ≡ v
unfolding decode_service encode_service text_at lookup str_eq
decode-encode_service v = refl

module _ {K : Type 0} (client : ConsulClient K) (laws : KvLaws client) where
  get-put :
      (key : String) (b : Blob) (a : ConsulApi K)
      → (put client key b a).1 ≡ none
      → get client key (put client key b a).0 ≡ ok b
  unfolding get put
  get-put key b a e = rw (laws.get_put (under a key) b a.store e, get)

  get-put_other :
      (key j : String) (b : Blob) (a : ConsulApi K)
      → key ≢ j
      → get client j (put client key b a).0 ≡ get client j a
  unfolding get put
  get-put_other key j b a h =
      let apart : under a key ≢ under a j =
        λ e. h (append_cancel_left "/" key j (append_cancel_left a.prefix _ _ e)) in
      rw (laws.get_put_other (under a key) (under a j) b a.store apart, get)

  stores :
      {A : Type 0} (decode : Blob → A) (code : A → Blob) (name : A → String) (prefix : String)
      → ((x : A) → decode (code x) ≡ x)
      → Stores
          (λ x. put client (str_append prefix (name x)) (code x))
          (λ id. read client decode (str_append prefix id))
          name
  stores decode code name prefix back = record {
    get_put = λ x s e. rw (get-put (str_append prefix (name x)) (code x) s e, back x);
    get_put_other = λ x k s h. rw (
        get-put_other (str_append prefix (name x)) (str_append prefix k) (code x) s
          (λ e. h (append_cancel_left prefix (name x) k e)));
  }

  -- The three kinds of configuration object.
  pub consul-StoreLaws : StoreLaws (consul_api client)
  unfolding consul_api
  consul-StoreLaws = record {
    clusters =
        stores decode_cluster encode_cluster (λ c. c.name) "config/clusters/" decode-encode_cluster;
    deployments =
        stores decode_deployment encode_deployment (λ d. d.name) "config/deployments/"
          decode-encode_deployment;
    services =
        stores decode_service encode_service (λ v. v.name) "config/services/" decode-encode_service;
  }

  -- Over a client that keeps the laws of a key/value store, a get of the Consul backend after a put
  -- with no error reads the cluster, deployment or service that was put, if it asks for its name, and
  -- what it read before, if it asks for another.
  pub consul_reads :
      (c : Cluster) (d : Deployment) (v : Service) (j : String) (a : ConsulApi K)
      → ((consul_api client).put_cluster c a).1 ≡ none
      → ((consul_api client).put_deployment d a).1 ≡ none
      → ((consul_api client).put_service v a).1 ≡ none
      → ((consul_api client).get_cluster j ((consul_api client).put_cluster c a).0
          ≡ (if str_eq c.name j then ok c else (consul_api client).get_cluster j a))
        × ((consul_api client).get_deployment j ((consul_api client).put_deployment d a).0
            ≡ (if str_eq d.name j then ok d else (consul_api client).get_deployment j a))
        × ((consul_api client).get_service j ((consul_api client).put_service v a).0
            ≡ (if str_eq v.name j then ok v else (consul_api client).get_service j a))
  consul_reads c d v j a ec ed ev = (
    Stores-reads (consul_api client).put_cluster (consul_api client).get_cluster
        (λ (x : Cluster). x.name) consul-StoreLaws.clusters c j a ec,
    Stores-reads (consul_api client).put_deployment (consul_api client).get_deployment
        (λ (x : Deployment). x.name) consul-StoreLaws.deployments d j a ed,
    Stores-reads (consul_api client).put_service (consul_api client).get_service
        (λ (x : Service). x.name) consul-StoreLaws.services v j a ev,
  )
