-- ===== src/Lib.antt =====
-- The ingress controller turns Kubernetes objects into the routes of a Pomerium configuration. It
-- watches Ingress and Gateway API objects, fetches the Services, Endpoints and Secrets that they
-- name, converts them to routes, and merges the routes into the configuration that the proxy reads.
--
-- Types, Kube, Route and Externals hold what the parts share: names and secrets, the Kubernetes
-- objects with the fields that the code reads, the route (the protobuf message, with the fields that
-- the code sets), and the code outside the repository (decoders, the policy compiler, the slug
-- library), which is a record of functions that the definitions take as a parameter.
--
-- Registry models model/registry.go: the registry is its adjacency map, and Add and DeleteCascade
-- are add_dependency and delete_cascade. A history is the list of calls, the latest at the head.
-- SecretsMap models model/secrets_map.go: a method returns the new maps beside its result.
-- IngressConfig models model/ingress_config.go; the methods DeepCopy are parameters of its clone.
--
-- Annotations models pomerium/ingress_annotations.go: Keys is removeKeyPrefix, and Tls, Secrets, Mcp,
-- Upstream and Policies apply a group of annotations each. IngressRoutes models
-- pomerium/ingress_to_route.go: Backend finds the upstream of a path, Path sets the address, the match
-- and the name of its route, and the parent composes them. RouteList models pomerium/route_list.go and
-- pomerium/routes.go: the routes of a configuration, indexed by the ids that IngressRoutes gives them.
--
-- Gateway models parts of controllers/gateway: Conditions is conditions.go, RefKey is refkey.go,
-- Grants is referencegrant.go, and Hostname is the functions on hostnames of httproute.go. Translate
-- models pomerium/gateway: the routes of an HTTPRoute from its matches, filters and backends. The check
-- of a route by the proxy's own library is a parameter there. Names models util/namespaced_name.go.
--
-- Certs models pomerium/certs.go and pomerium/cert_map.go: which certificates the hosts of a
-- configuration use. Crd is the custom resource of apis/ingress/v1, and Settings models
-- pomerium/config.go: Groups has the functions that set one group of settings each, and Apply the
-- others and ApplyConfig. Databroker models pomerium/sync_databroker.go: its operations read the
-- stored configuration, make the next one and save it, which is reconcile; Ingresses has what each
-- operation makes, and Requests runs a sequence of operations. The databroker is a client on a state of its own, with its laws as hypotheses. Api models
-- parts of pomerium/sync_api.go: a step (Steps) returns a value or an error and the state that it
-- leaves; the parent has how one object is created or updated, Secrets the key pairs, Policies the
-- policy of an ingress (pomerium/ingress_to_policy.go), Ingresses and Deletion the operations Upsert
-- and Delete. Kind holds what differs between routes, policies and key pairs.
-- IngressClass models controllers/ingress/ingress_class.go. Restart models util/restart.go as a step relation on the two loops and the tasks.
--
-- A Go map is an association list in the order of one iteration (Prelude.Map), so what holds of every
-- list holds of every order. A fallible function returns a Result whose error holds what the message
-- names. Ports and sizes are natural numbers; parse_uint32 has the bound of 32 bits. Loops are
-- structural recursion, so no definition needs fuel, but for the digits of a number, which itoa gives
-- the number itself.
--
-- Examples applies the theorems at concrete inputs.
--
-- Not modelled: the Kubernetes client, logging, the validation of a configuration by the proxy's own
-- libraries, and the controllers' watches; the protobuf fields that only the decoder sets.
pub mod Prelude
pub mod Types
pub mod Kube
pub mod Route
pub mod IngressConfig
pub mod Externals
pub mod Annotations
pub mod IngressRoutes
pub mod RouteList
pub mod Certs
pub mod Crd
pub mod Settings
pub mod Databroker
pub mod Api
pub mod Restart
pub mod IngressClass
pub mod Registry
pub mod Names
pub mod SecretsMap
pub mod Gateway
mod Examples
