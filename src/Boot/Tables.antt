-- ===== src/Boot/Tables.antt =====
-- The tables of kernel/vcore_bootscreen.c, as far as they are written out. The sine's has one entry less than
-- its array, whose last one is then 0.
use valiant_core.Base.{ℤ, pos, negsuc, List, [], ◌∷◌}

unfoldable pub sin_table : List ℤ
sin_table =
    pos 0
    ∷ pos 17
    ∷ pos 34
    ∷ pos 52
    ∷ pos 69
    ∷ pos 87
    ∷ pos 104
    ∷ pos 121
    ∷ pos 139
    ∷ pos 156
    ∷ pos 173
    ∷ pos 190
    ∷ pos 207
    ∷ pos 224
    ∷ pos 241
    ∷ pos 258
    ∷ pos 275
    ∷ pos 292
    ∷ pos 309
    ∷ pos 325
    ∷ pos 342
    ∷ pos 358
    ∷ pos 374
    ∷ pos 390
    ∷ pos 406
    ∷ pos 422
    ∷ pos 438
    ∷ pos 453
    ∷ pos 469
    ∷ pos 484
    ∷ pos 499
    ∷ pos 515
    ∷ pos 529
    ∷ pos 544
    ∷ pos 559
    ∷ pos 573
    ∷ pos 587
    ∷ pos 601
    ∷ pos 615
    ∷ pos 629
    ∷ pos 642
    ∷ pos 656
    ∷ pos 669
    ∷ pos 681
    ∷ pos 694
    ∷ pos 707
    ∷ pos 719
    ∷ pos 731
    ∷ pos 743
    ∷ pos 754
    ∷ pos 766
    ∷ pos 777
    ∷ pos 788
    ∷ pos 798
    ∷ pos 809
    ∷ pos 819
    ∷ pos 829
    ∷ pos 838
    ∷ pos 848
    ∷ pos 857
    ∷ pos 866
    ∷ pos 874
    ∷ pos 882
    ∷ pos 891
    ∷ pos 898
    ∷ pos 906
    ∷ pos 913
    ∷ pos 920
    ∷ pos 927
    ∷ pos 933
    ∷ pos 939
    ∷ pos 945
    ∷ pos 951
    ∷ pos 956
    ∷ pos 961
    ∷ pos 965
    ∷ pos 970
    ∷ pos 974
    ∷ pos 978
    ∷ pos 981
    ∷ pos 984
    ∷ pos 987
    ∷ pos 990
    ∷ pos 992
    ∷ pos 994
    ∷ pos 996
    ∷ pos 997
    ∷ pos 998
    ∷ pos 999
    ∷ pos 999
    ∷ pos 1000
    ∷ pos 999
    ∷ pos 999
    ∷ pos 998
    ∷ pos 997
    ∷ pos 996
    ∷ pos 994
    ∷ pos 992
    ∷ pos 990
    ∷ pos 987
    ∷ pos 984
    ∷ pos 981
    ∷ pos 978
    ∷ pos 974
    ∷ pos 970
    ∷ pos 965
    ∷ pos 961
    ∷ pos 956
    ∷ pos 951
    ∷ pos 945
    ∷ pos 939
    ∷ pos 933
    ∷ pos 927
    ∷ pos 920
    ∷ pos 913
    ∷ pos 906
    ∷ pos 898
    ∷ pos 891
    ∷ pos 882
    ∷ pos 874
    ∷ pos 866
    ∷ pos 857
    ∷ pos 848
    ∷ pos 838
    ∷ pos 829
    ∷ pos 819
    ∷ pos 809
    ∷ pos 798
    ∷ pos 788
    ∷ pos 777
    ∷ pos 766
    ∷ pos 754
    ∷ pos 743
    ∷ pos 731
    ∷ pos 719
    ∷ pos 707
    ∷ pos 694
    ∷ pos 681
    ∷ pos 669
    ∷ pos 656
    ∷ pos 642
    ∷ pos 629
    ∷ pos 615
    ∷ pos 601
    ∷ pos 587
    ∷ pos 573
    ∷ pos 559
    ∷ pos 544
    ∷ pos 529
    ∷ pos 515
    ∷ pos 499
    ∷ pos 484
    ∷ pos 469
    ∷ pos 453
    ∷ pos 438
    ∷ pos 422
    ∷ pos 406
    ∷ pos 390
    ∷ pos 374
    ∷ pos 358
    ∷ pos 342
    ∷ pos 325
    ∷ pos 309
    ∷ pos 292
    ∷ pos 275
    ∷ pos 258
    ∷ pos 241
    ∷ pos 224
    ∷ pos 207
    ∷ pos 190
    ∷ pos 173
    ∷ pos 156
    ∷ pos 139
    ∷ pos 121
    ∷ pos 104
    ∷ pos 87
    ∷ pos 69
    ∷ pos 52
    ∷ pos 34
    ∷ pos 17
    ∷ pos 0
    ∷ negsuc 16
    ∷ negsuc 33
    ∷ negsuc 51
    ∷ negsuc 68
    ∷ negsuc 86
    ∷ negsuc 103
    ∷ negsuc 120
    ∷ negsuc 138
    ∷ negsuc 155
    ∷ negsuc 172
    ∷ negsuc 189
    ∷ negsuc 206
    ∷ negsuc 223
    ∷ negsuc 240
    ∷ negsuc 257
    ∷ negsuc 274
    ∷ negsuc 291
    ∷ negsuc 308
    ∷ negsuc 324
    ∷ negsuc 341
    ∷ negsuc 357
    ∷ negsuc 373
    ∷ negsuc 389
    ∷ negsuc 405
    ∷ negsuc 421
    ∷ negsuc 437
    ∷ negsuc 452
    ∷ negsuc 468
    ∷ negsuc 483
    ∷ negsuc 499
    ∷ negsuc 514
    ∷ negsuc 528
    ∷ negsuc 543
    ∷ negsuc 558
    ∷ negsuc 572
    ∷ negsuc 586
    ∷ negsuc 600
    ∷ negsuc 614
    ∷ negsuc 628
    ∷ negsuc 641
    ∷ negsuc 655
    ∷ negsuc 668
    ∷ negsuc 680
    ∷ negsuc 693
    ∷ negsuc 706
    ∷ negsuc 718
    ∷ negsuc 742
    ∷ negsuc 753
    ∷ negsuc 765
    ∷ negsuc 776
    ∷ negsuc 787
    ∷ negsuc 797
    ∷ negsuc 808
    ∷ negsuc 818
    ∷ negsuc 828
    ∷ negsuc 837
    ∷ negsuc 847
    ∷ negsuc 856
    ∷ negsuc 865
    ∷ negsuc 873
    ∷ negsuc 881
    ∷ negsuc 890
    ∷ negsuc 897
    ∷ negsuc 905
    ∷ negsuc 912
    ∷ negsuc 919
    ∷ negsuc 926
    ∷ negsuc 932
    ∷ negsuc 938
    ∷ negsuc 944
    ∷ negsuc 950
    ∷ negsuc 955
    ∷ negsuc 960
    ∷ negsuc 964
    ∷ negsuc 969
    ∷ negsuc 973
    ∷ negsuc 977
    ∷ negsuc 980
    ∷ negsuc 983
    ∷ negsuc 986
    ∷ negsuc 989
    ∷ negsuc 991
    ∷ negsuc 993
    ∷ negsuc 995
    ∷ negsuc 996
    ∷ negsuc 997
    ∷ negsuc 998
    ∷ negsuc 998
    ∷ negsuc 999
    ∷ negsuc 998
    ∷ negsuc 998
    ∷ negsuc 997
    ∷ negsuc 996
    ∷ negsuc 995
    ∷ negsuc 993
    ∷ negsuc 991
    ∷ negsuc 989
    ∷ negsuc 986
    ∷ negsuc 983
    ∷ negsuc 980
    ∷ negsuc 977
    ∷ negsuc 973
    ∷ negsuc 969
    ∷ negsuc 964
    ∷ negsuc 960
    ∷ negsuc 955
    ∷ negsuc 950
    ∷ negsuc 944
    ∷ negsuc 938
    ∷ negsuc 932
    ∷ negsuc 926
    ∷ negsuc 919
    ∷ negsuc 912
    ∷ negsuc 905
    ∷ negsuc 897
    ∷ negsuc 890
    ∷ negsuc 881
    ∷ negsuc 873
    ∷ negsuc 865
    ∷ negsuc 856
    ∷ negsuc 847
    ∷ negsuc 837
    ∷ negsuc 828
    ∷ negsuc 818
    ∷ negsuc 808
    ∷ negsuc 797
    ∷ negsuc 787
    ∷ negsuc 776
    ∷ negsuc 765
    ∷ negsuc 753
    ∷ negsuc 742
    ∷ negsuc 730
    ∷ negsuc 718
    ∷ negsuc 706
    ∷ negsuc 693
    ∷ negsuc 680
    ∷ negsuc 668
    ∷ negsuc 655
    ∷ negsuc 641
    ∷ negsuc 628
    ∷ negsuc 614
    ∷ negsuc 600
    ∷ negsuc 586
    ∷ negsuc 572
    ∷ negsuc 558
    ∷ negsuc 543
    ∷ negsuc 528
    ∷ negsuc 514
    ∷ negsuc 499
    ∷ negsuc 483
    ∷ negsuc 468
    ∷ negsuc 452
    ∷ negsuc 437
    ∷ negsuc 421
    ∷ negsuc 405
    ∷ negsuc 389
    ∷ negsuc 373
    ∷ negsuc 357
    ∷ negsuc 341
    ∷ negsuc 324
    ∷ negsuc 308
    ∷ negsuc 291
    ∷ negsuc 274
    ∷ negsuc 257
    ∷ negsuc 240
    ∷ negsuc 223
    ∷ negsuc 206
    ∷ negsuc 189
    ∷ negsuc 172
    ∷ negsuc 155
    ∷ negsuc 138
    ∷ negsuc 120
    ∷ negsuc 103
    ∷ negsuc 86
    ∷ negsuc 68
    ∷ negsuc 51
    ∷ negsuc 33
    ∷ negsuc 16
    ∷ []

unfoldable pub cos_table : List ℤ
cos_table =
    pos 1000
    ∷ pos 999
    ∷ pos 999
    ∷ pos 998
    ∷ pos 997
    ∷ pos 996
    ∷ pos 994
    ∷ pos 992
    ∷ pos 990
    ∷ pos 987
    ∷ pos 984
    ∷ pos 981
    ∷ pos 978
    ∷ pos 974
    ∷ pos 970
    ∷ pos 965
    ∷ pos 961
    ∷ pos 956
    ∷ pos 951
    ∷ pos 945
    ∷ pos 939
    ∷ pos 933
    ∷ pos 927
    ∷ pos 920
    ∷ pos 913
    ∷ pos 906
    ∷ pos 898
    ∷ pos 891
    ∷ pos 882
    ∷ pos 874
    ∷ pos 866
    ∷ pos 857
    ∷ pos 848
    ∷ pos 838
    ∷ pos 829
    ∷ pos 819
    ∷ pos 809
    ∷ pos 798
    ∷ pos 788
    ∷ pos 777
    ∷ pos 766
    ∷ pos 754
    ∷ pos 743
    ∷ pos 731
    ∷ pos 719
    ∷ pos 707
    ∷ pos 694
    ∷ pos 681
    ∷ pos 669
    ∷ pos 656
    ∷ pos 642
    ∷ pos 629
    ∷ pos 615
    ∷ pos 601
    ∷ pos 587
    ∷ pos 573
    ∷ pos 559
    ∷ pos 544
    ∷ pos 529
    ∷ pos 515
    ∷ pos 500
    ∷ pos 484
    ∷ pos 469
    ∷ pos 453
    ∷ pos 438
    ∷ pos 422
    ∷ pos 406
    ∷ pos 390
    ∷ pos 374
    ∷ pos 358
    ∷ pos 342
    ∷ pos 325
    ∷ pos 309
    ∷ pos 292
    ∷ pos 275
    ∷ pos 258
    ∷ pos 241
    ∷ pos 224
    ∷ pos 207
    ∷ pos 190
    ∷ pos 173
    ∷ pos 156
    ∷ pos 139
    ∷ pos 121
    ∷ pos 104
    ∷ pos 87
    ∷ pos 69
    ∷ pos 52
    ∷ pos 34
    ∷ pos 17
    ∷ pos 0
    ∷ negsuc 16
    ∷ negsuc 33
    ∷ negsuc 51
    ∷ negsuc 68
    ∷ negsuc 86
    ∷ negsuc 103
    ∷ negsuc 120
    ∷ negsuc 138
    ∷ negsuc 155
    ∷ negsuc 172
    ∷ negsuc 189
    ∷ negsuc 206
    ∷ negsuc 223
    ∷ negsuc 240
    ∷ negsuc 257
    ∷ negsuc 274
    ∷ negsuc 291
    ∷ negsuc 308
    ∷ negsuc 324
    ∷ negsuc 341
    ∷ negsuc 357
    ∷ negsuc 373
    ∷ negsuc 389
    ∷ negsuc 405
    ∷ negsuc 421
    ∷ negsuc 437
    ∷ negsuc 452
    ∷ negsuc 468
    ∷ negsuc 483
    ∷ negsuc 498
    ∷ negsuc 514
    ∷ negsuc 528
    ∷ negsuc 543
    ∷ negsuc 558
    ∷ negsuc 572
    ∷ negsuc 586
    ∷ negsuc 600
    ∷ negsuc 614
    ∷ negsuc 628
    ∷ negsuc 641
    ∷ negsuc 655
    ∷ negsuc 668
    ∷ negsuc 680
    ∷ negsuc 693
    ∷ negsuc 706
    ∷ negsuc 718
    ∷ negsuc 730
    ∷ negsuc 742
    ∷ negsuc 753
    ∷ negsuc 765
    ∷ negsuc 776
    ∷ negsuc 787
    ∷ negsuc 797
    ∷ negsuc 808
    ∷ negsuc 818
    ∷ negsuc 828
    ∷ negsuc 837
    ∷ negsuc 847
    ∷ negsuc 856
    ∷ negsuc 865
    ∷ negsuc 873
    ∷ negsuc 881
    ∷ negsuc 890
    ∷ negsuc 897
    ∷ negsuc 905
    ∷ negsuc 912
    ∷ negsuc 919
    ∷ negsuc 926
    ∷ negsuc 932
    ∷ negsuc 938
    ∷ negsuc 944
    ∷ negsuc 950
    ∷ negsuc 955
    ∷ negsuc 960
    ∷ negsuc 964
    ∷ negsuc 969
    ∷ negsuc 973
    ∷ negsuc 977
    ∷ negsuc 980
    ∷ negsuc 983
    ∷ negsuc 986
    ∷ negsuc 989
    ∷ negsuc 991
    ∷ negsuc 993
    ∷ negsuc 995
    ∷ negsuc 996
    ∷ negsuc 997
    ∷ negsuc 998
    ∷ negsuc 998
    ∷ negsuc 999
    ∷ negsuc 998
    ∷ negsuc 998
    ∷ negsuc 997
    ∷ negsuc 996
    ∷ negsuc 995
    ∷ negsuc 993
    ∷ negsuc 991
    ∷ negsuc 989
    ∷ negsuc 986
    ∷ negsuc 983
    ∷ negsuc 980
    ∷ negsuc 977
    ∷ negsuc 973
    ∷ negsuc 969
    ∷ negsuc 964
    ∷ negsuc 960
    ∷ negsuc 955
    ∷ negsuc 950
    ∷ negsuc 944
    ∷ negsuc 938
    ∷ negsuc 932
    ∷ negsuc 926
    ∷ negsuc 919
    ∷ negsuc 912
    ∷ negsuc 905
    ∷ negsuc 897
    ∷ negsuc 890
    ∷ negsuc 881
    ∷ negsuc 873
    ∷ negsuc 865
    ∷ negsuc 856
    ∷ negsuc 847
    ∷ negsuc 837
    ∷ negsuc 828
    ∷ negsuc 818
    ∷ negsuc 808
    ∷ negsuc 797
    ∷ negsuc 787
    ∷ negsuc 776
    ∷ negsuc 765
    ∷ negsuc 753
    ∷ negsuc 742
    ∷ negsuc 730
    ∷ negsuc 718
    ∷ negsuc 706
    ∷ negsuc 693
    ∷ negsuc 680
    ∷ negsuc 668
    ∷ negsuc 655
    ∷ negsuc 641
    ∷ negsuc 628
    ∷ negsuc 614
    ∷ negsuc 600
    ∷ negsuc 586
    ∷ negsuc 572
    ∷ negsuc 558
    ∷ negsuc 543
    ∷ negsuc 528
    ∷ negsuc 514
    ∷ negsuc 499
    ∷ negsuc 483
    ∷ negsuc 468
    ∷ negsuc 452
    ∷ negsuc 437
    ∷ negsuc 421
    ∷ negsuc 405
    ∷ negsuc 389
    ∷ negsuc 373
    ∷ negsuc 357
    ∷ negsuc 341
    ∷ negsuc 324
    ∷ negsuc 308
    ∷ negsuc 291
    ∷ negsuc 274
    ∷ negsuc 257
    ∷ negsuc 240
    ∷ negsuc 223
    ∷ negsuc 206
    ∷ negsuc 189
    ∷ negsuc 172
    ∷ negsuc 155
    ∷ negsuc 138
    ∷ negsuc 120
    ∷ negsuc 103
    ∷ negsuc 86
    ∷ negsuc 68
    ∷ negsuc 51
    ∷ negsuc 33
    ∷ negsuc 16
    ∷ pos 0
    ∷ pos 17
    ∷ pos 34
    ∷ pos 52
    ∷ pos 69
    ∷ pos 87
    ∷ pos 104
    ∷ pos 121
    ∷ pos 139
    ∷ pos 156
    ∷ pos 173
    ∷ pos 190
    ∷ pos 207
    ∷ pos 224
    ∷ pos 241
    ∷ pos 258
    ∷ pos 275
    ∷ pos 292
    ∷ pos 309
    ∷ pos 325
    ∷ pos 342
    ∷ pos 358
    ∷ pos 374
    ∷ pos 390
    ∷ pos 406
    ∷ pos 422
    ∷ pos 438
    ∷ pos 453
    ∷ pos 469
    ∷ pos 484
    ∷ pos 500
    ∷ pos 515
    ∷ pos 529
    ∷ pos 544
    ∷ pos 559
    ∷ pos 573
    ∷ pos 587
    ∷ pos 601
    ∷ pos 615
    ∷ pos 629
    ∷ pos 642
    ∷ pos 656
    ∷ pos 669
    ∷ pos 681
    ∷ pos 694
    ∷ pos 707
    ∷ pos 719
    ∷ pos 731
    ∷ pos 743
    ∷ pos 754
    ∷ pos 766
    ∷ pos 777
    ∷ pos 788
    ∷ pos 798
    ∷ pos 809
    ∷ pos 819
    ∷ pos 829
    ∷ pos 838
    ∷ pos 848
    ∷ pos 857
    ∷ pos 866
    ∷ pos 874
    ∷ pos 882
    ∷ pos 891
    ∷ pos 898
    ∷ pos 906
    ∷ pos 913
    ∷ pos 920
    ∷ pos 927
    ∷ pos 933
    ∷ pos 939
    ∷ pos 945
    ∷ pos 951
    ∷ pos 956
    ∷ pos 961
    ∷ pos 965
    ∷ pos 970
    ∷ pos 974
    ∷ pos 978
    ∷ pos 981
    ∷ pos 984
    ∷ pos 987
    ∷ pos 990
    ∷ pos 992
    ∷ pos 994
    ∷ pos 996
    ∷ pos 997
    ∷ pos 998
    ∷ pos 999
    ∷ pos 999
    ∷ []
